-- ===== src/Jobs/Billed.antt =====
-- What the attempts of a bulk chat job are billed.
use cloud_mesh.Common.{
  ℕ, suc, ◌+◌, ◌≤◌, ◌≡◌, sym, subst, String, false, some, List, [], ◌∷◌, length, max, arith, str_eq,
}
use cloud_mesh.CircuitBreaker.{Outcome, returned, threw}
use cloud_mesh.Billing.Pricing.{UnifiedUsage}
use cloud_mesh.Billing.Once.{IsConsistent}
use cloud_mesh.Jobs.Handlers.{
  JobSpend, HandlerContext, bill_with, bill_job_usage, report_progress, push_result, after_chat,
  chat_all,
}
use cloud_mesh.Jobs.Bills.{before_all, IsPaid, bill_with-IsPaid}

module _ (show : ℕ → String) (ctx : HandlerContext) (model : String) where
  -- Where an attempt ends: some first prompts are paid, no fewer than before, and all of them if it
  -- returns.
  abbrev pub IsBilledUpTo : ℕ → ℕ → ℕ → JobSpend × Outcome String (List String) → Type 0
  IsBilledUpTo base k n (s, returned responses) = IsPaid show ctx model base n s.tables
  IsBilledUpTo base k n (s, threw message) =
      (k' : ℕ) × (k ≤ k') × (k' ≤ n) × IsPaid show ctx model base k' s.tables

  module _ (chat : ℕ → String → Outcome String (String × UnifiedUsage)) (total : ℕ) where
    pushed :
        (base k n : ℕ) (content : String) (end : JobSpend × Outcome String (List String))
        → IsBilledUpTo base k n end
        → IsBilledUpTo base k n (push_result content end)
    pushed base k n content (s, returned responses) h = h
    pushed base k n content (s, threw message) h = h

    looser :
        (base k k₁ n : ℕ) (end : JobSpend × Outcome String (List String))
        → k ≤ k₁
        → IsBilledUpTo base k₁ n end
        → IsBilledUpTo base k n end
    looser base k k₁ n (s, returned responses) le h = h
    looser base k k₁ n (s, threw message) le (k', more, few, paid) = (k', omega arith, few, paid)

    reply_billed :
        (base i k n : ℕ) (key : String) (reply : Outcome String (String × UnifiedUsage))
        (rest : JobSpend → JobSpend × Outcome String (List String)) (s : JobSpend)
        → ctx.api_key_id ≡ some key
        → str_eq key "" ≡ false
        → i ≤ k
        → k ≤ n
        → IsPaid show ctx model base k s.tables
        → ((s : JobSpend)
            → IsPaid show ctx model base (max k (suc i)) s.tables
            → IsBilledUpTo base (max k (suc i)) n (rest s))
        → IsBilledUpTo base k n (after_chat show ctx model chat total i rest s reply)
    reply_billed base i k n key (threw message) rest s is set le in_all paid h =
        (k, omega arith, in_all, paid)
    reply_billed base i k n key (returned (content, usage)) rest s is set le in_all paid h =
        let s' = report_progress i total (bill_job_usage show ctx model i (some usage) s) in
        pushed base k n content (rest s') (
          looser base k (max k (suc i)) n (rest s') (omega arith) (
            h s' (
              subst
                (λ o.
                  IsPaid show ctx model base (max k (suc i))
                    (bill_with show ctx model o i (some usage) s.tables))
                (sym is)
                (bill_with-IsPaid show ctx model base i k key usage s.tables set le paid))))

    chat_all-IsBilledUpTo :
        (base i k : ℕ) (key : String) (ps : List String) (s : JobSpend)
        → ctx.api_key_id ≡ some key
        → str_eq key "" ≡ false
        → i ≤ k
        → k ≤ i + length ps
        → IsPaid show ctx model base k s.tables
        → IsBilledUpTo base k (i + length ps) (chat_all show ctx model chat total i ps s)
    unfolding chat_all
    chat_all-IsBilledUpTo base i k key [] s is set le in_all paid =
        subst (λ n. IsPaid show ctx model base n s.tables) (omega arith) paid
    chat_all-IsBilledUpTo base i k key (p ∷ ps) s is set le in_all paid =
        reply_billed base i k (i + suc (length ps)) key (chat i p)
          (chat_all show ctx model chat total (suc i) ps) s is set le in_all paid
          (λ s paid'.
            subst
              (λ n.
                IsBilledUpTo base (max k (suc i)) n
                  (chat_all show ctx model chat total (suc i) ps s))
              (omega arith)
              (chat_all-IsBilledUpTo base (suc i) (max k (suc i)) key ps s is set (omega arith)
                (omega arith) paid'))

  -- A whole attempt.
  attempt-IsBilledUpTo :
      (chat : ℕ → String → Outcome String (String × UnifiedUsage)) (base k : ℕ) (key : String)
      (ps : List String) (s : JobSpend)
      → ctx.api_key_id ≡ some key
      → str_eq key "" ≡ false
      → k ≤ length ps
      → IsPaid show ctx model base k s.tables
      → IsBilledUpTo base k (length ps) (chat_all show ctx model chat (length ps) 0 ps s)
  attempt-IsBilledUpTo chat base k key ps s is set le paid =
      subst (λ n. IsBilledUpTo base k n (chat_all show ctx model chat (length ps) 0 ps s))
        (omega arith)
        (chat_all-IsBilledUpTo chat (length ps) base 0 k key ps s is set (omega arith)
          (omega (arith, le)) paid)

  ended-IsPaid :
      (base k n : ℕ) (end : JobSpend × Outcome String (List String))
      → k ≤ n
      → IsBilledUpTo base k n end
      → (k' : ℕ) × (k' ≤ n) × IsPaid show ctx model base k' end.0.tables
  ended-IsPaid base k n (s, returned responses) le paid = (n, omega arith, paid)
  ended-IsPaid base k n (s, threw message) le (k', more, few, paid) = (k', few, paid)

  -- Attempts at a job, one after another, each with its own answers from the provider.
  unfoldable pub attempts_at :
      List (ℕ → String → Outcome String (String × UnifiedUsage)) → List String → JobSpend → JobSpend
  unfolding chat_all
  attempts_at [] ps s = s
  attempts_at (chat ∷ chats) ps s =
      attempts_at chats ps (chat_all show ctx model chat (length ps) 0 ps s).0

  attempts-IsPaid :
      (base k : ℕ) (key : String)
      (chats : List (ℕ → String → Outcome String (String × UnifiedUsage))) (ps : List String)
      (s : JobSpend)
      → ctx.api_key_id ≡ some key
      → str_eq key "" ≡ false
      → k ≤ length ps
      → IsPaid show ctx model base k s.tables
      → (k' : ℕ) × (k' ≤ length ps) × IsPaid show ctx model base k' (attempts_at chats ps s).tables
  unfolding attempts_at
  attempts-IsPaid base k key [] ps s is set le paid = (k, le, paid)
  attempts-IsPaid base k key (chat ∷ chats) ps s is set le paid =
      let end = chat_all show ctx model chat (length ps) 0 ps s in
      let (k', few, paid') =
        ended-IsPaid base k (length ps) end le
          (attempt-IsBilledUpTo chat base k key ps s is set le paid) in
      attempts-IsPaid base k' key chats ps end.0 is set few paid'

  abbrev pub ReturnsPaid : ℕ → ℕ → JobSpend × Outcome String (List String) → Type 0
  ReturnsPaid base n (s, threw message) = Unit {0}
  ReturnsPaid base n (s, returned responses) = IsPaid show ctx model base n s.tables

  returns-ReturnsPaid :
      (base k n : ℕ) (end : JobSpend × Outcome String (List String))
      → IsBilledUpTo base k n end
      → ReturnsPaid base n end
  returns-ReturnsPaid base k n (s, returned responses) paid = paid
  returns-ReturnsPaid base k n (s, threw message) h = tt

  -- However many attempts a bulk chat job takes, wherever each of them breaks off and whatever the
  -- provider answers in each, the job is billed at most once for each of its prompts, and no response
  -- has two rows; if a further attempt returns, each prompt has its row. The job has an API key, and
  -- the tables are consistent beforehand.
  pub attempts_at-IsPaid :
      (key : String) (chats : List (ℕ → String → Outcome String (String × UnifiedUsage)))
      (last : ℕ → String → Outcome String (String × UnifiedUsage)) (ps : List String) (s : JobSpend)
      → ctx.api_key_id ≡ some key
      → str_eq key "" ≡ false
      → IsConsistent s.tables
      → (length (attempts_at chats ps s).tables.rows ≤ length s.tables.rows + length ps)
        × IsConsistent (attempts_at chats ps s).tables
        × ReturnsPaid
            (length s.tables.rows)
            (length ps)
            (chat_all show ctx model last (length ps) 0 ps (attempts_at chats ps s))
  attempts_at-IsPaid key chats last ps s is set consistent =
      let base = length s.tables.rows in
      let (k, few, ((covered, rows), consistent')) =
        attempts-IsPaid base 0 key chats ps s is set (omega arith)
          ((λ j lt. before_all show ctx model j _ lt, omega arith), consistent) in
      (
        omega (arith, rows, few),
        consistent',
        returns-ReturnsPaid base k (length ps)
            (chat_all show ctx model last (length ps) 0 ps (attempts_at chats ps s))
            (attempt-IsBilledUpTo last base k key ps (attempts_at chats ps s) is set few
              ((covered, rows), consistent')),
      )
