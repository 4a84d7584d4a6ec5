-- ===== src/Billing.antt =====
-- packages/billing/src/budgetStatus.ts and apps/gateway/src/lib/billing.ts and billingLock.ts: an
-- organization's budget and the check of it under a lock. Amounts are whole micro-dollars, as
-- DECIMAL(12,6) holds them. The ledger has what the database holds about one organization: its own
-- budget, its plan's, what it spent in the current month, and the events written.
pub mod Lock
pub mod Stripe
pub mod Invoices
pub mod Budget
pub mod Pricing
pub mod Usage
pub mod Once
mod Tests
use Prim.Native.String.{◌++◌ as ◌+++◌}
use cloud_mesh.Common.{
  ℕ, zero, suc, ◌+◌, ◌*◌, String, Bool, true, false, Option, none, some, List, [], ◌∷◌, ◌++◌, leb,
  ltb, ◌==◌, str_eq, if◌then◌else◌, arith,
}
use cloud_mesh.Common.KeyValue.{KeyValue}
use cloud_mesh.CircuitBreaker.{Outcome, returned, threw}

pub data LockError (E : Type 0) : Type 0 where
  not_acquired : String → LockError E
  inner : E → LockError E

module _ (redis : KeyValue String) where
  open redis use {Store, get, put, del}

  abbrev pub set_over : String → String → Option String → Store → Store × Bool
  set_over key token none s = (put s key token, true)
  set_over key token (some held) s = (s, false)

  -- `SET key token NX`, and whether it answered "OK".
  unfoldable pub set_nx : String → String → Store → Store × Bool
  set_nx key token s = set_over key token (get s key) s

  abbrev pub release_held : String → String → Option String → Store → Store
  release_held key token none s = s
  release_held key token (some held) s = if str_eq held token then del s key else s

  -- RELEASE_SCRIPT
  unfoldable pub release : String → String → Store → Store
  release key token s = release_held key token (get s key) s

  module _ {V E A : Type 0} where
    -- The `try` and its `finally`: whatever the body's outcome, the lock is released.
    abbrev pub after_body :
        String → String → (Store × V) × Outcome E A → (Store × V) × Outcome (LockError E) A
    after_body key token ((s, v), returned a) = ((release key token s, v), returned a)
    after_body key token ((s, v), threw e) = ((release key token s, v), threw (inner e))

    -- One round of the loop, for what SET answered; `otherwise` is the rest of the loop. The body
    -- and the sleep stand for all that other callers and the clock do to the store meanwhile.
    abbrev pub lock_round :
        String
        → String
        → (Store × V → (Store × V) × Outcome E A)
        → (Store × V → (Store × V) × Outcome (LockError E) A)
        → Store × Bool
        → V
        → (Store × V) × Outcome (LockError E) A
    lock_round key token fn otherwise (s, true) v = after_body key token (fn (s, v))
    lock_round key token fn otherwise (s, false) v = otherwise (s, v)

    abbrev pub give_up : String → Store × V → (Store × V) × Outcome (LockError E) A
    give_up key w = (w, threw (not_acquired key))

    -- The loop with `left` retries to go: it sleeps before each of them.
    unfoldable pub lock_loop :
        String
        → String
        → (Store × V → (Store × V) × Outcome E A)
        → (Store × V → Store × V)
        → ℕ
        → Store × V
        → (Store × V) × Outcome (LockError E) A
    lock_loop key token fn sleep zero w =
        lock_round key token fn (give_up key) (set_nx key token w.0) w.1
    lock_loop key token fn sleep (suc left) w =
        lock_round key token fn (λ w'. lock_loop key token fn sleep left (sleep w'))
          (set_nx key token w.0) w.1

    -- `token` is the random UUID of this call.
    unfoldable pub with_distributed_lock :
        String
        → String
        → ℕ
        → (Store × V → (Store × V) × Outcome E A)
        → (Store × V → Store × V)
        → Store × V
        → (Store × V) × Outcome (LockError E) A
    with_distributed_lock name token retries fn sleep w =
        lock_loop ("billing:lock:" +++ name) token fn sleep retries w

-- `remainingUsd` is `budget - spent` where there is a budget.
pub record BudgetStatus : Type 0 where
  pub spent : ℕ
  pub budget : Option ℕ

pub data BudgetEvent : Type 0 where
  budget_exceeded budget_warning : BudgetStatus → BudgetEvent

pub record Ledger : Type 0 where
  pub override : Option ℕ
  pub plan_budget : Option ℕ
  pub spent : ℕ
  pub outbox : List BudgetEvent

-- The organization's own budget, or else its plan's, or else none, which is no limit.
abbrev pub effective : Option ℕ → Option ℕ → Option ℕ
effective none plan = plan
effective (some own) plan = some own

unfoldable pub get_budget_status : Ledger → BudgetStatus
get_budget_status l = record { spent = l.spent; budget = effective l.override l.plan_budget }

-- `remainingUsd !== null && remainingUsd <= 0`
unfoldable pub is_exhausted : BudgetStatus → Bool
is_exhausted status = elim status.budget [ none ↦ false | some b ↦ leb b status.spent ]

-- `budgetUsd > 0 ? remainingUsd / budgetUsd : 0` is below 0.1.
unfoldable pub is_nearly_spent : BudgetStatus → Bool
is_nearly_spent status = elim status.budget [
  | none ↦ false
  | some zero ↦ true
  | some (suc b) ↦ ltb (10 * suc b) (suc b + 10 * status.spent)
]

-- What `enforceBudget` does while it holds the lock.
unfoldable pub check_budget : Ledger → Ledger × Outcome BudgetStatus BudgetStatus
check_budget l =
    let status = get_budget_status l in
    if is_exhausted status
    then (record l { outbox = l.outbox ++ budget_exceeded status ∷ [] }, threw status)
    else (l, returned status)

unfoldable pub maybe_publish_budget_warning : BudgetStatus → Ledger → Ledger
maybe_publish_budget_warning status l =
    if is_nearly_spent status
    then record l { outbox = l.outbox ++ budget_warning status ∷ [] }
    else l

abbrev pub lock_retries : ℕ
lock_retries = 3

module _ (redis : KeyValue String) where
  open redis use {Store}

  abbrev pub locked_check : Store × Ledger → (Store × Ledger) × Outcome BudgetStatus BudgetStatus
  locked_check (s, l) = let (l', outcome) = check_budget l in ((s, l'), outcome)

  unfoldable pub enforce_budget :
      String
      → String
      → String
      → (Store × Ledger → Store × Ledger)
      → Store × Ledger
      → (Store × Ledger) × Outcome (LockError BudgetStatus) BudgetStatus
  unfolding check_budget
  enforce_budget org period token sleep w =
      with_distributed_lock redis (org +++ (":" +++ period)) token lock_retries locked_check sleep w
