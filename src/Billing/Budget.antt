-- ===== src/Billing/Budget.antt =====
-- The budget check: what it lets through, and how far an organization can overspend.
use native.Mathlib.Nat.{mul-le-mul_right}
use cloud_mesh.Common.{
  ℕ, ◌+◌, ◌-◌, ◌*◌, ◌≤◌, ◌<◌, ◌≡◌, ◌∙◌, ap, some, List, [], ◌∷◌, arith, leb, Bool-cases, inl, inr,
  max, subst,
}
use cloud_mesh.CircuitBreaker.{Outcome, returned, threw}
use cloud_mesh.Billing.{
  Ledger, BudgetStatus, get_budget_status, effective, is_exhausted, check_budget,
}

-- What happens to one organization: a request is checked, and runs if the check lets it through; it
-- bills its cost when it ends; and others bill without a check, as bulk chat jobs do, and requests
-- while the flag is off.
pub data RequestEvent : Type 0 where
  checks : RequestEvent
  bills : ℕ → RequestEvent
  bills_unchecked : ℕ → RequestEvent

pub record Traffic : Type 0 where
  pub ledger : Ledger
  pub in_flight : ℕ

abbrev pub after_check : ℕ → Ledger × Outcome BudgetStatus BudgetStatus → Traffic
after_check n (l, returned status) = record { ledger = l; in_flight = n + 1 }
after_check n (l, threw status) = record { ledger = l; in_flight = n }

abbrev pub spend : ℕ → Ledger → Ledger
spend cost l = record l { spent = l.spent + cost }

unfoldable pub traffic_step : RequestEvent → Traffic → Traffic
unfolding check_budget
traffic_step checks t = after_check t.in_flight (check_budget t.ledger)
traffic_step (bills cost) t = record { ledger = spend cost t.ledger; in_flight = t.in_flight - 1 }
traffic_step (bills_unchecked cost) t = record t { ledger = spend cost t.ledger }

unfoldable pub traffic_run : List RequestEvent → Traffic → Traffic
unfolding traffic_step
traffic_run [] t = t
traffic_run (e ∷ es) t = traffic_run es (traffic_step e t)

-- No more than `most` checked requests are in flight after the event, and a bill that was checked
-- for is one of a request in flight and costs at most `dear`.
abbrev pub Fits : ℕ → ℕ → RequestEvent → Traffic → Type 0
Fits most dear checks t = (traffic_step checks t).in_flight ≤ most
Fits most dear (bills cost) t = (0 < t.in_flight) × (cost ≤ dear)
Fits most dear (bills_unchecked cost) t = Unit {0}

abbrev pub AllFit : ℕ → ℕ → List RequestEvent → Traffic → Type 0
AllFit most dear [] t = Unit {0}
AllFit most dear (e ∷ es) t = Fits most dear e t × AllFit most dear es (traffic_step e t)

abbrev pub unchecked_costs : List RequestEvent → ℕ
unchecked_costs [] = 0
unchecked_costs (checks ∷ es) = unchecked_costs es
unchecked_costs (bills cost ∷ es) = unchecked_costs es
unchecked_costs (bills_unchecked cost ∷ es) = cost + unchecked_costs es

-- The budget is this, and what was spent and the most that is in flight stay within `limit`, which
-- is no less than what the last request can bring the organization to that the check lets through.
pub record IsBounded (budget most dear limit : ℕ) (t : Traffic) : Type 0 where
  pub same_budget : effective t.ledger.override t.ledger.plan_budget ≡ some budget
  pub bounded : t.ledger.spent + t.in_flight * dear ≤ limit
  pub enough : budget - 1 + most * dear ≤ limit

pred_mul : (n dear : ℕ) → 0 < n → (n - 1) * dear + dear ≡ n * dear
pred_mul n dear h =
    let back : n - 1 + 1 ≡ n = omega (arith, h) in
    let step : (n - 1) * dear + dear ≡ (n - 1 + 1) * dear = omega arith in
    step ∙ ap (λ (k : ℕ). k * dear) back

checked-IsBounded :
    (budget most dear limit : ℕ) (t : Traffic)
    → (traffic_step checks t).in_flight ≤ most
    → IsBounded budget most dear limit t
    → IsBounded budget most dear limit (traffic_step checks t)
unfolding traffic_step check_budget get_budget_status is_exhausted
checked-IsBounded budget most dear limit t fits v = elim (Bool-cases (leb budget t.ledger.spent)) [
  | inl gone ↦
      rw (v.same_budget, gone)
        (record { same_budget = v.same_budget; bounded = v.bounded; enough = v.enough })
  | inr some_left ↦
      let more : t.in_flight + 1 ≤ most = rw (v.same_budget, some_left) at fits in
      let room : (t.in_flight + 1) * dear ≤ most * dear = mul-le-mul_right dear more in
      let left : t.ledger.spent < budget = ground arith in
      rw (v.same_budget, some_left)
        (record {
          same_budget = v.same_budget;
          bounded = omega (arith, room, left, v.enough);
          enough = v.enough;
        })
]

billed-IsBounded :
    (budget most dear limit cost : ℕ) (t : Traffic)
    → Fits most dear (bills cost) t
    → IsBounded budget most dear limit t
    → IsBounded budget most dear limit (traffic_step (bills cost) t)
unfolding traffic_step
billed-IsBounded budget most dear limit cost t (busy, cheap) v =
    let paid = pred_mul t.in_flight dear busy in
    record {
      same_budget = v.same_budget;
      bounded = omega (arith, cheap, v.bounded, paid);
      enough = v.enough;
    }

unchecked-IsBounded :
    (budget most dear limit cost : ℕ) (t : Traffic)
    → IsBounded budget most dear limit t
    → IsBounded budget most dear (limit + cost) (traffic_step (bills_unchecked cost) t)
unfolding traffic_step
unchecked-IsBounded budget most dear limit cost t v = record {
  same_budget = v.same_budget;
  bounded = omega (arith, v.bounded);
  enough = omega (arith, v.enough);
}

traffic_run-IsBounded :
    (budget most dear limit : ℕ) (es : List RequestEvent) (t : Traffic)
    → AllFit most dear es t
    → IsBounded budget most dear limit t
    → IsBounded budget most dear (limit + unchecked_costs es) (traffic_run es t)
unfolding traffic_run
traffic_run-IsBounded budget most dear limit [] t fit v =
    let same : limit ≡ limit + 0 = omega arith in subst (λ n. IsBounded budget most dear n t) same v
traffic_run-IsBounded budget most dear limit (checks ∷ es) t (here, later) v =
    traffic_run-IsBounded budget most dear limit es (traffic_step checks t) later
      (checked-IsBounded budget most dear limit t here v)
traffic_run-IsBounded budget most dear limit (bills cost ∷ es) t (here, later) v =
    traffic_run-IsBounded budget most dear limit es (traffic_step (bills cost) t) later
      (billed-IsBounded budget most dear limit cost t here v)
traffic_run-IsBounded budget most dear limit (bills_unchecked cost ∷ es) t (here, later) v =
    let same : limit + cost + unchecked_costs es ≡ limit + (cost + unchecked_costs es) =
      omega arith in
    let t' = traffic_step (bills_unchecked cost) t in
    subst (λ n. IsBounded budget most dear n (traffic_run es t')) same
      (traffic_run-IsBounded budget most dear (limit + cost) es t' later
        (unchecked-IsBounded budget most dear limit cost t v))

-- An organization with a budget and nothing in flight, that never has more than `most` checked
-- requests in flight, each costing at most `dear`, in whatever order its checks and bills come, and
-- whatever else bills it without a check: it spends no more than the larger of what it had spent
-- and the cost of `most` requests that start with the last of the budget, and what was billed
-- without a check besides.
pub overspend_bound :
    (budget most dear : ℕ) (es : List RequestEvent) (l : Ledger)
    → effective l.override l.plan_budget ≡ some budget
    → AllFit most dear es (record { ledger = l; in_flight = 0 })
    → (traffic_run es (record { ledger = l; in_flight = 0 })).ledger.spent
      ≤ max l.spent (budget - 1 + most * dear) + unchecked_costs es
overspend_bound budget most dear es l same fit =
    let limit = max l.spent (budget - 1 + most * dear) in
    let start : IsBounded budget most dear limit (record { ledger = l; in_flight = 0 }) = record {
      same_budget = same;
      bounded = omega arith;
      enough = omega arith;
    } in
    let end = traffic_run-IsBounded budget most dear limit es _ fit start in
    omega (arith, end.bounded)
