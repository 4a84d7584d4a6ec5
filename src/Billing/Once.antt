-- ===== src/Billing/Once.antt =====
-- However often a response is recorded, it is billed once and announced once.
use cloud_mesh.Common.{◌≡◌, refl, ap, ◌∙◌, true, List, [], ◌∷◌, ◌++◌, All, Bool-cases, inl, inr}
use cloud_mesh.Billing.Usage.{
  RecordUsageParams, UsageRow, GatewayEvent, usage_recorded, provider_degraded, UsageTables,
  request_key, has_request, row_of, record_usage_and_outbox,
}
use cloud_mesh.Common.Unique.{IsDistinct, append-IsDistinct, has_key-in-append, has_key-last}

-- The rows that the outbox announces.
abbrev pub announced : List GatewayEvent → List UsageRow
announced [] = []
announced (usage_recorded r ∷ es) = r ∷ announced es
announced (provider_degraded o m c ∷ es) = announced es

announced-append : (es fs : List GatewayEvent) → announced (es ++ fs) ≡ announced es ++ announced fs
announced-append [] fs = refl
announced-append (usage_recorded r ∷ es) fs = ap (λ rs. r ∷ rs) (announced-append es fs)
announced-append (provider_degraded o m c ∷ es) fs = announced-append es fs

-- Each row has its event, in order and with what it says, and no response has two rows.
abbrev pub IsConsistent : UsageTables → Type 0
IsConsistent t = (announced t.outbox ≡ t.rows) × IsDistinct request_key t.rows

-- Recordings one after another.
unfoldable pub record_all : List RecordUsageParams → UsageTables → UsageTables
unfolding record_usage_and_outbox
record_all [] t = t
record_all (p ∷ ps) t = record_all ps (record_usage_and_outbox p t).0

pub record_usage_and_outbox-IsConsistent :
    (p : RecordUsageParams) (t : UsageTables)
    → IsConsistent t
    → IsConsistent (record_usage_and_outbox p t).0
unfolding record_usage_and_outbox
record_usage_and_outbox-IsConsistent p t (same, d) =
    elim (Bool-cases (has_request p.request_id t.rows)) [
      | inl known ↦ rw known (same, d)
      | inr new ↦ rw new (
        announced-append t.outbox _ ∙ ap (λ rs. rs ++ row_of p ∷ []) same,
        append-IsDistinct request_key t.rows (row_of p) d new,
      )
    ]

abbrev pub IsBilled : UsageTables → RecordUsageParams → Type 0
IsBilled t p = has_request p.request_id t.rows ≡ true

record-keeps :
    (p q : RecordUsageParams) (t : UsageTables)
    → IsBilled t q
    → IsBilled (record_usage_and_outbox p t).0 q
unfolding record_usage_and_outbox
record-keeps p q t h = elim (Bool-cases (has_request p.request_id t.rows)) [
  | inl known ↦ rw known h
  | inr new ↦ rw new (has_key-in-append request_key q.request_id t.rows (row_of p ∷ []) h)
]

pub record-IsBilled :
    (p : RecordUsageParams) (t : UsageTables) → IsBilled (record_usage_and_outbox p t).0 p
unfolding record_usage_and_outbox
record-IsBilled p t = elim (Bool-cases (has_request p.request_id t.rows)) [
  | inl known ↦ rw known known
  | inr new ↦ rw new (has_key-last request_key t.rows (row_of p))
]

record_all-keeps :
    (ps : List RecordUsageParams) (q : RecordUsageParams) (t : UsageTables)
    → IsBilled t q
    → IsBilled (record_all ps t) q
unfolding record_all
record_all-keeps [] q t h = h
record_all-keeps (p ∷ ps) q t h =
    record_all-keeps ps q (record_usage_and_outbox p t).0 (record-keeps p q t h)

record_all-IsBilled :
    (ps : List RecordUsageParams) (t : UsageTables) → All (IsBilled (record_all ps t)) ps
unfolding record_all
record_all-IsBilled [] t = tt
record_all-IsBilled (p ∷ ps) t = (
  record_all-keeps ps p (record_usage_and_outbox p t).0 (record-IsBilled p t),
  record_all-IsBilled ps (record_usage_and_outbox p t).0,
)

known_unchanged :
    (p : RecordUsageParams) (t : UsageTables) → IsBilled t p → (record_usage_and_outbox p t).0 ≡ t
unfolding record_usage_and_outbox
known_unchanged p t h = rw h refl

record_all_unchanged :
    (ps : List RecordUsageParams) (t : UsageTables) → All (IsBilled t) ps → record_all ps t ≡ t
unfolding record_all
record_all_unchanged [] t h = refl
record_all_unchanged (p ∷ ps) t (h, hs) =
    ap (record_all ps) (known_unchanged p t h) ∙ record_all_unchanged ps t hs

record_all-IsConsistent :
    (ps : List RecordUsageParams) (t : UsageTables)
    → IsConsistent t
    → IsConsistent (record_all ps t)
unfolding record_all
record_all-IsConsistent [] t h = h
record_all-IsConsistent (p ∷ ps) t h =
    record_all-IsConsistent ps (record_usage_and_outbox p t).0
      (record_usage_and_outbox-IsConsistent p t h)

-- However recordings follow each other, each response has its row, no response has two, the outbox
-- announces exactly the rows, in order and with their amounts, and a second delivery of all of
-- them changes neither table. The tables are consistent beforehand, as empty ones are.
pub record_all_once :
    (ps : List RecordUsageParams) (t : UsageTables)
    → IsConsistent t
    → IsConsistent (record_all ps t)
      × All (IsBilled (record_all ps t)) ps
      × (record_all ps (record_all ps t) ≡ record_all ps t)
record_all_once ps t h = (
  record_all-IsConsistent ps t h,
  record_all-IsBilled ps t,
  record_all_unchanged ps (record_all ps t) (record_all-IsBilled ps t),
)
