-- ===== src/CircuitBreaker/Invariant.antt =====
-- What holds of a circuit between two calls, over every interleaving of callers. A history is a
-- sequence of the scripts and overrides that any number of callers and operators run, with the
-- lapse of a key whose EXPIRE has passed; the times need not be in order.
use cloud_mesh.Common.{ℕ, ◌<◌, ◌≡◌, refl, ◌≢◌, Bool, true, Option, some, List, [], ◌∷◌, arith}
use cloud_mesh.CircuitBreaker.{
  closed, opened, half_open, Circuit, CircuitBreakerConfig, untouched, ttl_seconds, state_of,
  failures_of, attempt, report, force_open,
}

pub data Event : Type 0 where
  attempts : ℕ → Event
  reports : ℕ → Bool → Event
  forced : ℕ → Event
  dropped : Event

-- `dropped` is `resetCircuit`, and Redis' removal of an expired key.
unfoldable pub step : CircuitBreakerConfig → Event → Circuit → Circuit
step cfg (attempts now) c = (attempt cfg now c).0
step cfg (reports now success) c = (report cfg now success c).0
step cfg (forced now) c = force_open now c
step cfg dropped c = untouched

unfoldable pub run : CircuitBreakerConfig → List Event → Circuit → Circuit
run cfg [] c = c
run cfg (e ∷ es) c = run cfg es (step cfg e c)

pub record IsSound (cfg : CircuitBreakerConfig) (c : Circuit) : Type 0 where
  -- An opened circuit knows when it opened.
  pub opened_known : state_of c ≡ opened → c.opened_at ≢ Option.none
  -- A half-open circuit has given its probe away.
  pub probe_claimed : state_of c ≡ half_open → c.probe_taken ≡ some true
  -- Whatever refuses callers goes away by itself.
  pub refusal_expires : state_of c ≢ closed → c.ttl ≡ some ttl_seconds
  -- A closed circuit is below its threshold.
  pub below_threshold : state_of c ≡ closed → failures_of c < cfg.failure_threshold

untouched-IsSound : (cfg : CircuitBreakerConfig) → 0 < cfg.failure_threshold → IsSound cfg untouched
untouched-IsSound cfg h = record {
  opened_known = λ e. cc;
  probe_claimed = λ e. cc;
  refusal_expires = λ e. absurd (e refl);
  below_threshold = λ e. h;
}

attempt-IsSound :
    (cfg : CircuitBreakerConfig) (now : ℕ) (c : Circuit)
    → 0 < cfg.failure_threshold
    → IsSound cfg c
    → IsSound cfg (attempt cfg now c).0
unfolding attempt
attempt-IsSound cfg now c h v = ground arith

report-IsSound :
    (cfg : CircuitBreakerConfig) (now : ℕ) (success : Bool) (c : Circuit)
    → 0 < cfg.failure_threshold
    → IsSound cfg c
    → IsSound cfg (report cfg now success c).0
unfolding report
report-IsSound cfg now success c h v = ground arith

force_open-IsSound :
    (cfg : CircuitBreakerConfig) (now : ℕ) (c : Circuit) → IsSound cfg (force_open now c)
unfolding force_open
force_open-IsSound cfg now c = ground arith

step-IsSound :
    (cfg : CircuitBreakerConfig) (e : Event) (c : Circuit)
    → 0 < cfg.failure_threshold
    → IsSound cfg c
    → IsSound cfg (step cfg e c)
unfolding step
step-IsSound cfg (attempts now) c h v = attempt-IsSound cfg now c h v
step-IsSound cfg (reports now success) c h v = report-IsSound cfg now success c h v
step-IsSound cfg (forced now) c h v = force_open-IsSound cfg now c
step-IsSound cfg dropped c h v = untouched-IsSound cfg h

run_keeps_IsSound :
    (cfg : CircuitBreakerConfig) (es : List Event) (c : Circuit)
    → 0 < cfg.failure_threshold
    → IsSound cfg c
    → IsSound cfg (run cfg es c)
unfolding run
run_keeps_IsSound cfg [] c h v = v
run_keeps_IsSound cfg (e ∷ es) c h v =
    run_keeps_IsSound cfg es (step cfg e c) h (step-IsSound cfg e c h v)

-- With a positive threshold, every history from a circuit that was never touched, whatever its
-- interleaving and its times, leaves a sound circuit: an opened one has its opening time, a
-- half-open one has given its probe away, one that is not closed carries an expiry of
-- `TTL_SECONDS`, and a closed one has counted fewer failures than the threshold.
pub run-IsSound :
    (cfg : CircuitBreakerConfig) (es : List Event)
    → 0 < cfg.failure_threshold
    → IsSound cfg (run cfg es untouched)
run-IsSound cfg es h = run_keeps_IsSound cfg es untouched h (untouched-IsSound cfg h)
