-- ===== src/CircuitBreaker/Trip.antt =====
-- When a closed circuit opens.
use cloud_mesh.Common.{
  ℕ, suc, ◌+◌, ◌<◌, ◌≡◌, true, false, List, [], ◌∷◌, arith, length, leb, if◌then◌else◌,
}
use cloud_mesh.CircuitBreaker.{
  closed, opened, Circuit, CircuitBreakerConfig, state_of, failures_of, attempt, report,
}
use cloud_mesh.CircuitBreaker.Invariant.{Event, attempts, reports, forced, dropped, step, run}

-- The failures that a history reports; an operator's override counts for all of them.
unfoldable pub strikes : CircuitBreakerConfig → List Event → ℕ
strikes cfg [] = 0
strikes cfg (attempts now ∷ es) = strikes cfg es
strikes cfg (reports now true ∷ es) = strikes cfg es
strikes cfg (reports now false ∷ es) = suc (strikes cfg es)
strikes cfg (forced now ∷ es) = cfg.failure_threshold + strikes cfg es
strikes cfg (dropped ∷ es) = strikes cfg es

step-strikes :
    (cfg : CircuitBreakerConfig) (e : Event) (es : List Event) (c : Circuit)
    → state_of c ≡ closed
    → failures_of c + strikes cfg (e ∷ es) < cfg.failure_threshold
    → (state_of (step cfg e c) ≡ closed)
      × (failures_of (step cfg e c) + strikes cfg es < cfg.failure_threshold)
unfolding step strikes attempt report
step-strikes cfg (attempts now) es c s h = ground arith
step-strikes cfg (reports now true) es c s h = ground arith
step-strikes cfg (reports now false) es c s h = ground arith
step-strikes cfg (forced now) es c s h = absurd (omega arith)
step-strikes cfg dropped es c s h = ground arith

-- A closed circuit stays closed through every history, in whatever order and at whatever times,
-- whose failures together with those already counted stay below the threshold and in which no
-- operator forces it open.
pub run-closed :
    (cfg : CircuitBreakerConfig) (es : List Event) (c : Circuit)
    → state_of c ≡ closed
    → failures_of c + strikes cfg es < cfg.failure_threshold
    → state_of (run cfg es c) ≡ closed
unfolding run
run-closed cfg [] c s h = s
run-closed cfg (e ∷ es) c s h =
    let (s', h') = step-strikes cfg e es c s h in run-closed cfg es (step cfg e c) s' h'

unfoldable pub fail_all : CircuitBreakerConfig → List ℕ → Circuit → Circuit
fail_all cfg [] c = c
fail_all cfg (now ∷ ts) c = fail_all cfg ts (report cfg now false c).0

opened_stays :
    (cfg : CircuitBreakerConfig) (ts : List ℕ) (c : Circuit)
    → state_of c ≡ opened
    → state_of (fail_all cfg ts c) ≡ opened
unfolding fail_all report
opened_stays cfg [] c s = s
opened_stays cfg (now ∷ ts) c s = opened_stays cfg ts (report cfg now false c).0 (ground arith)

report_trips :
    (cfg : CircuitBreakerConfig) (now : ℕ) (c : Circuit)
    → state_of c ≡ closed
    → let c' = (report cfg now false c).0 in
      (failures_of c' ≡ failures_of c + 1)
      × (state_of c' ≡ (if leb cfg.failure_threshold (failures_of c + 1) then opened else closed))
unfolding report
report_trips cfg now c s = ground arith

-- Failures reported one after the other open a closed circuit exactly when they bring its count
-- to the threshold.
pub fail_all-opened :
    (cfg : CircuitBreakerConfig) (ts : List ℕ) (c : Circuit)
    → state_of c ≡ closed
    → failures_of c < cfg.failure_threshold
    → state_of (fail_all cfg ts c)
      ≡ (if leb cfg.failure_threshold (failures_of c + length ts) then opened else closed)
unfolding fail_all
fail_all-opened cfg [] c s h = ground arith
fail_all-opened cfg (now ∷ ts) c s h = ground (
  arith,
  report_trips cfg now c s,
  opened_stays cfg ts (report cfg now false c).0,
  fail_all-opened cfg ts (report cfg now false c).0,
)
