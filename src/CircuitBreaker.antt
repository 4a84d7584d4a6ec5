-- ===== src/CircuitBreaker.antt =====
-- packages/circuit-breaker/src/circuitBreaker.ts and types.ts: the two Lua scripts, the peek, the
-- operators' overrides and `withCircuitBreaker`. A circuit's Redis hash is a record with an
-- optional value for each field; HMSET overwrites the fields that it names. `ttl` is what the last
-- EXPIRE set. Times are numbers, so `now - t > w` is written `t + w < now`, which is the same
-- order on the integers also where the clock has gone back.
pub mod Invariant
pub mod Probe
pub mod Trip
pub mod Call
mod Tests
use cloud_mesh.Common.{
  ℕ, ◌+◌, String, Bool, true, false, Option, none, some, List, [], ◌∷◌, ltb, leb, get_or,
  if◌then◌else◌,
}
use cloud_mesh.Common.KeyValue.{KeyValue}
use Prim.Native.String.{◌++◌}

pub data CircuitState : Type 0 where
  closed opened half_open : CircuitState

pub record CircuitBreakerConfig : Type 0 where
  pub failure_threshold : ℕ
  pub failure_window_ms : ℕ
  pub open_duration_ms : ℕ

pub record Circuit : Type 0 where
  pub state : Option CircuitState
  pub window_start : Option ℕ
  pub opened_at : Option ℕ
  pub probe_taken : Option Bool
  pub failures : Option ℕ
  pub ttl : Option ℕ

-- The hash under a key that does not exist.
abbrev pub untouched : Circuit
untouched = record {
  state = none;
  window_start = none;
  opened_at = none;
  probe_taken = none;
  failures = none;
  ttl = none;
}

abbrev pub ttl_seconds : ℕ
ttl_seconds = 3600

-- `data[1] or "closed"`
abbrev pub state_of : Circuit → CircuitState
state_of c = get_or c.state closed

-- `tonumber(data[2]) or 0`
abbrev pub failures_of : Circuit → ℕ
failures_of c = get_or c.failures 0

attempt_closed : CircuitBreakerConfig → ℕ → Circuit → Circuit
attempt_closed cfg now c = elim c.window_start [
  | none ↦ record c { window_start = some now }
  | some start ↦
      if ltb (start + cfg.failure_window_ms) now
      then record c { failures = some 0; window_start = some now }
      else c
]

-- ATTEMPT_SCRIPT: may the caller proceed, and in which state.
attempt_in : CircuitState → CircuitBreakerConfig → ℕ → Circuit → Circuit × Bool × CircuitState
unfolding attempt_closed
attempt_in closed cfg now c = (attempt_closed cfg now c, true, closed)
attempt_in opened cfg now c =
    if leb (get_or c.opened_at 0 + cfg.open_duration_ms) now
    then (
      record c { state = some half_open; probe_taken = some true; ttl = some ttl_seconds },
      true,
      half_open,
    )
    else (c, false, opened)
attempt_in half_open cfg now c =
    if get_or c.probe_taken false
    then (c, false, half_open)
    else (record c { probe_taken = some true }, true, half_open)

unfoldable pub attempt : CircuitBreakerConfig → ℕ → Circuit → Circuit × Bool × CircuitState
unfolding attempt_in
attempt cfg now c = attempt_in (state_of c) cfg now c

report_success : CircuitState → ℕ → Circuit → Circuit × CircuitState
report_success half_open now c = (
  record c {
    state = some closed;
    failures = some 0;
    window_start = some now;
    probe_taken = some false;
    ttl = some ttl_seconds;
  },
  closed,
)
report_success s now c = (c, s)

report_failure : CircuitState → CircuitBreakerConfig → ℕ → Circuit → Circuit × CircuitState
report_failure half_open cfg now c = (
  record c {
    state = some opened;
    opened_at = some now;
    probe_taken = some false;
    ttl = some ttl_seconds;
  },
  opened,
)
report_failure s cfg now c =
    let failures = failures_of c + 1 in
    if leb cfg.failure_threshold failures
    then (
      record c {
        state = some opened;
        opened_at = some now;
        failures = some failures;
        ttl = some ttl_seconds;
      },
      opened,
    )
    else (record c { failures = some failures; ttl = some ttl_seconds }, closed)

-- REPORT_SCRIPT: the outcome of a call that ATTEMPT_SCRIPT let through.
unfoldable pub report : CircuitBreakerConfig → ℕ → Bool → Circuit → Circuit × CircuitState
unfolding report_success report_failure
report cfg now success c =
    if success then report_success (state_of c) now c else report_failure (state_of c) cfg now c

-- The hash that `forceOpenCircuit` leaves.
unfoldable pub force_open : ℕ → Circuit → Circuit
force_open now c = record c {
  state = some opened;
  opened_at = some now;
  probe_taken = some false;
  ttl = some ttl_seconds;
}

-- The outcome of a promise: its value, or what it throws.
pub data Outcome (E A : Type 0) : Type 0 where
  returned : A → Outcome E A
  threw : E → Outcome E A

-- What the wrapper throws: its own error, or the call's.
pub data BreakerError (E : Type 0) : Type 0 where
  circuit_open : String → BreakerError E
  failed : E → BreakerError E

module _ (redis : KeyValue Circuit) where
  open redis use {Store, get, put, del}

  -- `circuit:${name}`
  abbrev pub key : String → String
  key name = "circuit:" ++ name

  abbrev pub fetch : Store → String → Circuit
  fetch s name = get_or (get s (key name)) untouched

  unfoldable pub get_circuit_state : Store → String → CircuitState
  get_circuit_state s name = state_of (fetch s name)

  unfoldable pub reset_circuit : Store → String → Store
  reset_circuit s name = del s (key name)

  unfoldable pub force_open_circuit : String → ℕ → Store → Store
  force_open_circuit name now s = put s (key name) (force_open now (fetch s name))

  unfoldable pub eval_attempt : String → CircuitBreakerConfig → ℕ → Store → Store × Bool
  eval_attempt name cfg now s =
      let (c, allowed, state) = attempt cfg now (fetch s name) in (put s (key name) c, allowed)

  unfoldable pub eval_report : String → CircuitBreakerConfig → ℕ → Bool → Store → Store
  eval_report name cfg now success s =
      let (c, state) = report cfg now success (fetch s name) in put s (key name) c

  -- The `try` around the call: report the outcome and pass it on.
  unfoldable pub settle :
      {E A : Type 0}
      → String
      → CircuitBreakerConfig
      → ℕ
      → Store × Outcome E A
      → Store × Outcome (BreakerError E) A
  settle name cfg now (t, returned a) = (eval_report name cfg now true t, returned a)
  settle name cfg now (t, threw e) = (eval_report name cfg now false t, threw (failed e))

  -- `fn` stands for the call together with all that other callers do to the store meanwhile. Both
  -- reports carry the time at which the wrapper was entered.
  unfoldable pub with_circuit_breaker :
      {E A : Type 0}
      → String
      → CircuitBreakerConfig
      → (Store → Store × Outcome E A)
      → ℕ
      → Store
      → Store × Outcome (BreakerError E) A
  unfolding settle
  with_circuit_breaker name cfg fn now s =
      let (s', allowed) = eval_attempt name cfg now s in
      if allowed then settle name cfg now (fn s') else (s', threw (circuit_open name))
