-- ===== src/RateLimiter/Told.antt =====
-- Which of an organization's refused requests it is told of, while nothing fails.
use text.Mathlib.TextLemmas.{append_cancel_left}
use cloud_mesh.Common.{
  ℕ, ◌+◌, ◌≡◌, refl, sym, ap, ◌∙◌, String, Bool, true, false, ◌&&◌, Option, List, [], ◌∷◌, ◌++◌,
  any, arith, str_eq, eq_iff, eq_refl, Bool-cases, ltb, inl, inr, All, if◌then◌else◌,
}
use cloud_mesh.Common.KeyValue.{KeyValue}
use cloud_mesh.Tenant.{is_uuid, with_tenant}
use cloud_mesh.CircuitBreaker.{Outcome, returned, threw}
use cloud_mesh.RateLimiter.TokenBucket.{Bucket}
use cloud_mesh.RateLimiter.Gate.{require_rate_limit}
use cloud_mesh.RateLimiter.Rejected.{
  RateLimitedEvent, GatedRequest, rate_limited_key, bucket_key, is_held, claim_dedupe_slot,
  emit_rate_limited_event, GateWorld, rejection_of, after_bucket, gate,
}
use cloud_mesh.RateLimiter.Announced.{gate_all, ask_all, after_bucket_held}

-- The organization has been told within the last minute.
abbrev pub is_recent : String → ℕ → RateLimitedEvent → Bool
is_recent org_id now e = str_eq e.org_id org_id && ltb now (e.occurred_at + 60_000)

abbrev pub tell : RateLimitedEvent → List RateLimitedEvent → List RateLimitedEvent
tell f es = if any (is_recent f.org_id f.occurred_at) es then es else es ++ f ∷ []

-- What an organization is to be told: each refusal, but none within a minute of one that it was
-- told of.
unfoldable pub tell_all :
    List (RateLimitedEvent × Outcome ℕ (Unit {0})) → List RateLimitedEvent → List RateLimitedEvent
tell_all [] es = es
tell_all ((f, returned passed) ∷ asked) es = tell_all asked es
tell_all ((f, threw seconds) ∷ asked) es = tell_all asked (tell f es)

any-last :
    (p : RateLimitedEvent → Bool) (es : List RateLimitedEvent) (f : RateLimitedEvent)
    → any p (es ++ f ∷ []) ≡ (if any p es then true else p f)
any-last p [] f = elim (Bool-cases (p f)) [ inl h ↦ rw h refl | inr h ↦ rw h refl ]
any-last p (e ∷ es) f = elim (Bool-cases (p e)) [
  | inl h ↦ rw (any, h) refl
  | inr h ↦ rw (any, h) (any-last p es f)
]

-- Events that are a minute old at one time are so later on.
none_recent :
    (org_id : String) (now later : ℕ) (es : List RateLimitedEvent)
    → any (is_recent org_id now) es ≡ false
    → ltb later (now + 60_000) ≡ false
    → any (is_recent org_id later) es ≡ false
none_recent org_id now later [] h past = refl
none_recent org_id now later (e ∷ es) h past = elim (Bool-cases (is_recent org_id now e)) [
  | inl recent ↦ let e : true ≡ false = rw (any, recent) at h in cc
  | inr old ↦
      let old_later : is_recent org_id later e ≡ false = ground arith in
      rw (any, old_later) (none_recent org_id now later es (rw (any, old) at h) past)
]

other_org :
    (a b : String) → str_eq (rate_limited_key a) (rate_limited_key b) ≡ false → str_eq a b ≡ false
other_org a b differs = elim (Bool-cases (str_eq a b)) [
  | inl same ↦
      let e : true ≡ false =
        sym ((eq_iff _ _).1 (ap rate_limited_key ((eq_iff a b).0 same))) ∙ differs in
      cc
  | inr other ↦ other
]

or_false : (b : Bool) → (if b then true else false) ≡ b
or_false true = refl
or_false false = refl

or_true : (b : Bool) → (if b then true else true) ≡ true
or_true true = refl
or_true false = refl

is_recent_own :
    (now : ℕ) (f : RateLimitedEvent) → is_recent f.org_id now f ≡ ltb now (f.occurred_at + 60_000)
is_recent_own now f = rw (eq_refl f.org_id) refl

recent_after :
    (now : ℕ) (es : List RateLimitedEvent) (f : RateLimitedEvent)
    → any (is_recent f.org_id f.occurred_at) es ≡ false
    → any (is_recent f.org_id now) (es ++ f ∷ []) ≡ ltb now (f.occurred_at + 60_000)
recent_after now es f free =
    any-last (is_recent f.org_id now) es f ∙ elim (Bool-cases (ltb now (f.occurred_at + 60_000))) [
      | inl soon ↦ rw (is_recent_own now f, soon) (or_true (any (is_recent f.org_id now) es))
      | inr late ↦
          rw (is_recent_own now f, late, none_recent f.org_id f.occurred_at now es free late) refl
    ]

recent_elsewhere :
    (org_id : String) (now : ℕ) (es : List RateLimitedEvent) (f : RateLimitedEvent)
    → str_eq f.org_id org_id ≡ false
    → any (is_recent org_id now) (es ++ f ∷ []) ≡ any (is_recent org_id now) es
recent_elsewhere org_id now es f other =
    any-last (is_recent org_id now) es f ∙ rw other (or_false (any (is_recent org_id now) es))

module _ (redis : KeyValue ℕ) where
  -- A slot is taken as long as its organization has been told within the last minute.
  abbrev pub IsExact : redis.Store → List RateLimitedEvent → Type 0
  IsExact s es =
      (org_id : String) (now : ℕ)
      → is_held now (redis.get s (rate_limited_key org_id)) ≡ any (is_recent org_id now) es

  claimed-IsExact :
      (s : redis.Store) (es : List RateLimitedEvent) (f : RateLimitedEvent)
      → IsExact s es
      → any (is_recent f.org_id f.occurred_at) es ≡ false
      → IsExact (redis.put s (rate_limited_key f.org_id) (f.occurred_at + 60_000)) (es ++ f ∷ [])
  claimed-IsExact s es f exact free org_id now =
      let until = f.occurred_at + 60_000 in
      elim (Bool-cases (str_eq (rate_limited_key f.org_id) (rate_limited_key org_id))) [
        | inl same ↦
            let own : f.org_id ≡ org_id =
              append_cancel_left "events:ratelimited:" f.org_id org_id ((eq_iff _ _).0 same) in
            rw (redis.get-put s (rate_limited_key f.org_id) (rate_limited_key org_id) until, same)
              (sym (recent_after now es f free)
                ∙ ap (λ o. any (is_recent o now) (es ++ f ∷ [])) own)
        | inr differs ↦
            rw
              (redis.get-put s (rate_limited_key f.org_id) (rate_limited_key org_id) until, differs)
              (exact org_id now
                ∙ sym (recent_elsewhere org_id now es f (other_org f.org_id org_id differs)))
      ]

  -- Nothing fails, and the organization's id is one.
  abbrev pub IsReached : GatedRequest → Type 0
  IsReached r = (r.claim_fails ≡ false) × (r.write_fails ≡ false) × (is_uuid r.org_id ≡ true)

  emit-tell :
      (f : RateLimitedEvent) (s : redis.Store) (es : List RateLimitedEvent)
      → is_uuid f.org_id ≡ true
      → IsExact s es
      → let emitted = emit_rate_limited_event redis false false f s es in
        (emitted.1 ≡ tell f es) × IsExact emitted.0 emitted.1
  unfolding emit_rate_limited_event claim_dedupe_slot with_tenant
  emit-tell f s es valid exact = elim (Bool-cases (any (is_recent f.org_id f.occurred_at) es)) [
    | inl recent ↦
        let held = exact f.org_id f.occurred_at ∙ recent in rw (held, recent) (refl, exact)
    | inr free ↦
        let open_slot = exact f.org_id f.occurred_at ∙ free in
        rw (open_slot, free, valid) (refl, claimed-IsExact s es f exact free)
  ]

  module _ (buckets : KeyValue Bucket) where
    after_bucket-tell :
        (r : GatedRequest) (stored : Option Bucket) (w : GateWorld redis buckets)
        (o : Outcome ℕ (Unit {0})) (asked : List (RateLimitedEvent × Outcome ℕ (Unit {0})))
        → IsReached r
        → IsExact w.slots w.outbox
        → let next = (after_bucket redis buckets r stored w o).0 in
          (tell_all ((rejection_of redis buckets r stored, o) ∷ asked) w.outbox
            ≡ tell_all asked next.outbox)
          × IsExact next.slots next.outbox
    unfolding tell_all
    after_bucket-tell r stored w (returned passed) asked reached exact = (refl, exact)
    after_bucket-tell r stored w (threw seconds) asked (claims, writes, valid) exact =
        let (told, exact') =
          emit-tell (rejection_of redis buckets r stored) w.slots w.outbox valid exact in
        rw (claims, writes) (ap (tell_all asked) (sym told), exact')

    -- Requests of any organizations, at any times, while nothing fails: the events are exactly the
    -- refusals, in order, without those of an organization that was told of one less than 60
    -- seconds before. Beforehand a slot is taken exactly as long as its organization has been told
    -- within the last minute, as when there is neither.
    pub gate_all-tell_all :
        (rs : List GatedRequest) (w : GateWorld redis buckets)
        → All IsReached rs
        → IsExact w.slots w.outbox
        → (gate_all redis buckets rs w).0.outbox
          ≡ tell_all (ask_all redis buckets rs w.buckets_held) w.outbox
    unfolding gate_all gate ask_all tell_all
    gate_all-tell_all [] w reached exact = refl
    gate_all-tell_all (r ∷ rs) w (here, later) exact =
        let stored = buckets.get w.buckets_held (bucket_key r.api_key_id) in
        let answer = require_rate_limit r.rate_limit_rpm r.now r.clock stored in
        let held = buckets.put w.buckets_held (bucket_key r.api_key_id) answer.0 in
        let next : GateWorld redis buckets = record w { buckets_held = held } in
        let w' = (after_bucket redis buckets r stored next answer.1).0 in
        let (told, exact') =
          after_bucket-tell r stored next answer.1 (ask_all redis buckets rs held) here exact in
        gate_all-tell_all rs w' later exact'
        ∙ ap (λ s. tell_all (ask_all redis buckets rs s) w'.outbox)
            (after_bucket_held redis buckets r stored next answer.1)
        ∙ sym told
