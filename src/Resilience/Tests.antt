-- ===== src/Resilience/Tests.antt =====
-- Runs of a resilient call, and its theorem at concrete inputs.
use cloud_mesh.Common.{ℕ, ◌==◌, ◌≡◌, refl, String, Option, [], arith, if◌then◌else◌}
use cloud_mesh.Common.KeyValue.{KeyValue, memory, blank}
use cloud_mesh.CircuitBreaker.{
  Circuit, failed, Outcome, returned, threw, eval_attempt, eval_report, attempt, report,
  with_circuit_breaker,
}
use cloud_mesh.Retry.{with_retry}
use cloud_mesh.Resilience.{
  ResilienceEnv, service_unavailable, call_provider_resilient, call_provider_resilient_with_stats,
}
use cloud_mesh.Resilience.Settled.{IsLast, call_provider_resilient-IsLast}

abbrev redis : KeyValue Circuit
redis = memory Circuit

abbrev env : ResilienceEnv (String → Option Circuit)
env = record {
  retry = record { max_attempts = 3; base_delay_ms = 200 };
  circuit = record { failure_threshold = 2; failure_window_ms = 60_000; open_duration_ms = 30_000 };
  sleep = λ d s. s;
  unit = 2;
  random = λ k. 1;
}

-- A provider that is down, and one that recovers for the second attempt.
abbrev down : ℕ → (String → Option Circuit) → (String → Option Circuit) × Outcome String String
down k s = (s, threw "timeout")

abbrev flaky : ℕ → (String → Option Circuit) → (String → Option Circuit) × Outcome String String
flaky k s = if k == 2 then (s, returned "hello") else (s, threw "timeout")

abbrev clock : ℕ → ℕ
clock k = 10

call_provider_resilient-IsLast_example : IsLast redis env "openai" down clock blank 70 [] (
    call_provider_resilient_with_stats redis env "openai" down clock (failed "none") 70 (blank, []))
call_provider_resilient-IsLast_example =
    call_provider_resilient-IsLast redis env "openai" down clock (failed "none") 70 [] blank
      (omega arith)

-- The second failure opens the circuit, and the third attempt is refused: no sample, no call.
circuit_trips :
    (call_provider_resilient_with_stats redis env "openai" down clock
      (failed "none")
      70
      (blank, [])).1
    ≡ threw (service_unavailable "openai")
unfolding call_provider_resilient_with_stats call_provider_resilient with_circuit_breaker with_retry
    eval_attempt attempt eval_report report
circuit_trips = refl
