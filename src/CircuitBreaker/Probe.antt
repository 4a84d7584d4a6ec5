-- ===== src/CircuitBreaker/Probe.antt =====
-- How a circuit that is not closed admits callers.
use mathlib.Core.Bool.{cond}
use cloud_mesh.Common.{
  ℕ, ◌+◌, ◌≤◌, ◌<◌, ◌≡◌, refl, ◌≢◌, true, false, some, List, [], ◌∷◌, arith, All, inl, inr,
  Bool-cases,
}
use cloud_mesh.CircuitBreaker.{
  closed, opened, half_open, Circuit, CircuitBreakerConfig, state_of, failures_of, attempt, report,
}

-- How many of the callers that attempt at these times are let through, with no report between.
unfoldable pub admitted : CircuitBreakerConfig → List ℕ → Circuit → ℕ
admitted cfg [] c = 0
admitted cfg (now ∷ ts) c = cond (attempt cfg now c).1 1 0 + admitted cfg ts (attempt cfg now c).0

abbrev pub IsClaimed : Circuit → Type 0
IsClaimed c = (state_of c ≡ half_open) × (c.probe_taken ≡ some true)

claimed_refuses :
    (cfg : CircuitBreakerConfig) (now : ℕ) (c : Circuit)
    → IsClaimed c
    → ((attempt cfg now c).0 ≡ c) × ((attempt cfg now c).1 ≡ false)
unfolding attempt
claimed_refuses cfg now c h = ground arith

attempt_claims :
    (cfg : CircuitBreakerConfig) (now : ℕ) (c : Circuit)
    → state_of c ≢ closed
    → (attempt cfg now c).1 ≡ true
    → IsClaimed (attempt cfg now c).0
unfolding attempt
attempt_claims cfg now c h e = ground arith

pub refusal_keeps :
    (cfg : CircuitBreakerConfig) (now : ℕ) (c : Circuit)
    → (attempt cfg now c).1 ≡ false
    → (attempt cfg now c).0 ≡ c
unfolding attempt
refusal_keeps cfg now c e = ground arith

claimed_admits_none :
    (cfg : CircuitBreakerConfig) (ts : List ℕ) (c : Circuit) → IsClaimed c → admitted cfg ts c ≡ 0
unfolding admitted
claimed_admits_none cfg [] c h = refl
claimed_admits_none cfg (now ∷ ts) c h =
    let (same, no_entry) = claimed_refuses cfg now c h in
    ground (arith, same, no_entry, claimed_admits_none cfg ts c h)

-- However many callers attempt, at whatever times, and with no report between, a circuit that is
-- not closed lets at most one of them through.
pub admitted-le-one :
    (cfg : CircuitBreakerConfig) (ts : List ℕ) (c : Circuit)
    → state_of c ≢ closed
    → admitted cfg ts c ≤ 1
unfolding admitted
admitted-le-one cfg [] c h = omega arith
admitted-le-one cfg (now ∷ ts) c h = elim (Bool-cases (attempt cfg now c).1) [
  | inl go ↦
      ground
        (arith, claimed_admits_none cfg ts (attempt cfg now c).0 (attempt_claims cfg now c h go))
  | inr stay ↦ ground (arith, refusal_keeps cfg now c stay, admitted-le-one cfg ts c h)
]

-- An opened circuit lets nobody through before its time is up.
pub admitted_early :
    (cfg : CircuitBreakerConfig) (ts : List ℕ) (c : Circuit) (since : ℕ)
    → state_of c ≡ opened
    → c.opened_at ≡ some since
    → All (λ t. t < since + cfg.open_duration_ms) ts
    → admitted cfg ts c ≡ 0
unfolding admitted attempt
admitted_early cfg [] c since s o early = refl
admitted_early cfg (now ∷ ts) c since s o early =
    ground (arith, admitted_early cfg ts c since s o early.1)

-- An opened circuit that knows its opening time recovers: once its duration has passed since it opened, the next caller
-- is let through as the probe, its success closes the circuit with no failure counted, and its
-- failure opens it again from the time reported.
pub attempt-report_recovers :
    (cfg : CircuitBreakerConfig) (c : Circuit) (since now later : ℕ)
    → state_of c ≡ opened
    → c.opened_at ≡ some since
    → since + cfg.open_duration_ms ≤ now
    → let probe = attempt cfg now c in
      let good = (report cfg later true probe.0).0 in
      let bad = (report cfg later false probe.0).0 in
      (probe.1 ≡ true)
      × (state_of good ≡ closed)
      × (failures_of good ≡ 0)
      × (good.window_start ≡ some later)
      × (state_of bad ≡ opened)
      × (bad.opened_at ≡ some later)
unfolding attempt report
attempt-report_recovers cfg c since now later s o h = ground arith
