-- ===== src/CircuitBreaker/Tests.antt =====
-- Runs of the circuit breaker, and its theorems at concrete inputs.
use cloud_mesh.Common.{
  ℕ, ◌≤◌, ◌≡◌, refl, String, true, false, Option, none, some, List, [], ◌∷◌, arith,
}
use cloud_mesh.Common.KeyValue.{KeyValue, memory, blank}
use cloud_mesh.CircuitBreaker.{
  closed, opened, half_open, Circuit, CircuitBreakerConfig, Outcome, returned, threw, circuit_open,
  untouched, state_of, attempt, report, force_open, fetch, get_circuit_state, force_open_circuit,
  reset_circuit, eval_attempt, eval_report, with_circuit_breaker,
}
use cloud_mesh.CircuitBreaker.Invariant.{Event, attempts, reports, step, run, IsSound, run-IsSound}
use cloud_mesh.CircuitBreaker.Probe.{admitted, admitted-le-one}
use cloud_mesh.CircuitBreaker.Call
use cloud_mesh.CircuitBreaker.Call.{
  with_circuit_breaker_contract, with_circuit_breaker_elsewhere, slow_failure_admits, succeeded,
  passed_on,
}

abbrev config : CircuitBreakerConfig
config = record { failure_threshold = 2; failure_window_ms = 60_000; open_duration_ms = 30_000 }

-- Two callers overlap: the second failure trips the circuit, and a probe closes it.
abbrev story : List Event
story =
    attempts 10
    ∷ attempts 12
    ∷ reports 10 false
    ∷ reports 12 false
    ∷ attempts 20
    ∷ attempts 30_012
    ∷ []

story_half_open : state_of (run config story untouched) ≡ half_open
unfolding run step attempt report
story_half_open = refl

story_closes :
    state_of (run config (reports 30_020 true ∷ []) (run config story untouched)) ≡ closed
unfolding run step attempt report
story_closes = refl

run-IsSound_example : IsSound config (run config story untouched)
run-IsSound_example = run-IsSound config story (omega arith)

abbrev tripped : Circuit
tripped = record {
  state = some opened;
  window_start = some 10;
  opened_at = some 12;
  probe_taken = none;
  failures = some 2;
  ttl = some 3600;
}

admitted-le-one_example : admitted config (30_000 ∷ 30_012 ∷ 30_012 ∷ 30_013 ∷ []) tripped ≤ 1
admitted-le-one_example =
    admitted-le-one config (30_000 ∷ 30_012 ∷ 30_012 ∷ 30_013 ∷ []) tripped (λ e. cc)

one_admitted : admitted config (30_000 ∷ 30_012 ∷ 30_012 ∷ 30_013 ∷ []) tripped ≡ 1
unfolding admitted attempt
one_admitted = refl

abbrev redis : KeyValue Circuit
redis = memory Circuit

abbrev Store : Type 0
Store = String → Option Circuit

-- A provider that answers, and one that fails.
abbrev answers : Store → Store × Outcome ℕ String
answers s = (s, returned "hi")

abbrev fails : Store → Store × Outcome ℕ String
fails s = (s, threw 502)

abbrev down : Store
down = force_open_circuit redis "openai" 12 blank

down_refuses :
    (with_circuit_breaker redis "openai" config answers 20 down).1 ≡ threw (circuit_open "openai")
unfolding with_circuit_breaker eval_attempt force_open_circuit force_open attempt
down_refuses = refl

abbrev restored : Store
restored = reset_circuit redis down "openai"

reset_admits : (with_circuit_breaker redis "openai" config answers 20 restored).1 ≡ returned "hi"
unfolding with_circuit_breaker eval_attempt eval_report reset_circuit attempt
reset_admits = refl

down_state : get_circuit_state redis down "openai" ≡ opened
unfolding get_circuit_state force_open_circuit force_open
down_state = refl

with_circuit_breaker_contract_example :
    let c = fetch redis down "openai" in
    let after = with_circuit_breaker redis "openai" config answers 30_012 down in
    let call = answers (Call.entered redis "openai" config 30_012 down) in
    ((attempt config 30_012 c).1 ≡ false
      → (after.1 ≡ threw (circuit_open "openai")) × (fetch redis after.0 "openai" ≡ c))
    × ((attempt config 30_012 c).1 ≡ true
        → (after.1 ≡ passed_on call.1)
          × (fetch redis after.0 "openai"
              ≡ (report config 30_012 (succeeded call.1) (fetch redis call.0 "openai")).0))
with_circuit_breaker_contract_example =
    with_circuit_breaker_contract redis "openai" config answers 30_012 down
