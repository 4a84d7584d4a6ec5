-- ===== src/Jobs/Bills.antt =====
-- What the bills for a job's prompts leave in the usage tables.
use cloud_mesh.Common.{
  ℕ, suc, ◌+◌, ◌≤◌, ◌<◌, ◌≡◌, sym, ◌∙◌, String, Bool, true, false, some, [], ◌∷◌, ◌++◌, length,
  length-append, max, arith, str_eq, Bool-cases, ltb, ltb→lt, ◌⊎◌, inl, inr,
}
use cloud_mesh.Common.Unique.{has_key-in-append, has_key-last}
use cloud_mesh.Billing.Pricing.{UnifiedUsage}
use cloud_mesh.Billing.Usage.{
  UsageTables, usage_recorded, request_key, has_request, row_of, record_usage_and_outbox,
}
use cloud_mesh.Billing.Once.{IsConsistent, record_usage_and_outbox-IsConsistent}
use cloud_mesh.Jobs.Handlers.{HandlerContext, job_request_id, job_usage, bill_with}

module _ (show : ℕ → String) (ctx : HandlerContext) (model : String) where
  -- The first `k` prompts have their rows, and the job has added no more than `k` rows to `base`.
  abbrev pub Covers : ℕ → ℕ → UsageTables → Type 0
  Covers base k t =
      ((j : ℕ) → j < k → has_request (job_request_id show ctx model j) t.rows ≡ true)
      × (length t.rows ≤ base + k)

  pub before_all : (j : ℕ) (b : Bool) → j < 0 → b ≡ true
  before_all j b lt = grind arith

  reached : (i k j : ℕ) → i ≤ k → j < max k (suc i) → (j < k) ⊎ (j ≡ i)
  reached i k j le lt = elim (Bool-cases (ltb j k)) [
    | inl before ↦ inl (ltb→lt j k before)
    | inr past ↦ inr (grind arith)
  ]

  -- After a bill for the prompt with number `i`.
  kept-Covers :
      (base i k : ℕ) (t t' : UsageTables)
      → i ≤ k
      → Covers base k t
      → ((id : String) → has_request id t.rows ≡ true → has_request id t'.rows ≡ true)
      → has_request (job_request_id show ctx model i) t'.rows ≡ true
      → length t'.rows ≤ base + max k (suc i)
      → Covers base (max k (suc i)) t'
  kept-Covers base i k t t' le (paid, few) keeps has few' = (
    λ j lt. elim (reached i k j le lt) [
      | inl before ↦ keeps (job_request_id show ctx model j) (paid j before)
      | inr same ↦ rw same has
    ],
    few',
  )

  unpaid_next :
      (base i k : ℕ) (t : UsageTables)
      → Covers base k t
      → has_request (job_request_id show ctx model i) t.rows ≡ false
      → k ≤ i
  unpaid_next base i k t (paid, few) new = elim (Bool-cases (ltb i k)) [
    | inl before ↦ let e : true ≡ false = sym (paid i (ltb→lt i k before)) ∙ new in cc
    | inr past ↦ ground arith
  ]

  recorded-Covers :
      (base i k : ℕ) (key : String) (usage : UnifiedUsage) (t : UsageTables)
      → i ≤ k
      → Covers base k t
      → Covers base
          (max k (suc i))
          (record_usage_and_outbox (job_usage show ctx model key i usage) t).0
  unfolding record_usage_and_outbox
  recorded-Covers base i k key usage t le (paid, few) =
      let p = job_usage show ctx model key i usage in
      elim (Bool-cases (has_request p.request_id t.rows)) [
        | inl known ↦
            rw known
              (kept-Covers base i k t t le (paid, few) (λ id h. h) known (omega (arith, few)))
        | inr new ↦
            let next = unpaid_next base i k t (paid, few) new in
            rw new (
              kept-Covers base i k t
                (record {
                  rows = t.rows ++ row_of p ∷ [];
                  outbox = t.outbox ++ usage_recorded (row_of p) ∷ [];
                })
                le (paid, few) (λ id h. has_key-in-append request_key id t.rows (row_of p ∷ []) h)
                (has_key-last request_key t.rows (row_of p))
                (omega (arith, few, next, length-append t.rows (row_of p ∷ []))))
      ]

  -- And the tables are as every recording leaves them: no response is billed twice.
  abbrev pub IsPaid : ℕ → ℕ → UsageTables → Type 0
  IsPaid base k t = Covers base k t × IsConsistent t

  pub bill_with-IsPaid :
      (base i k : ℕ) (key : String) (usage : UnifiedUsage) (t : UsageTables)
      → str_eq key "" ≡ false
      → i ≤ k
      → IsPaid base k t
      → IsPaid base (max k (suc i)) (bill_with show ctx model (some key) i (some usage) t)
  bill_with-IsPaid base i k key usage t set le (covers, consistent) = rw set (
    recorded-Covers base i k key usage t le covers,
    record_usage_and_outbox-IsConsistent (job_usage show ctx model key i usage) t consistent,
  )
