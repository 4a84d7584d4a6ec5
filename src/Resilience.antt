-- ===== src/Resilience.antt =====
-- apps/gateway/src/lib/resilience.ts: the call of a provider, retried around its circuit breaker, and
-- the sample that it leaves for the router. The store stands for all that the call, the sleeps and
-- other callers change; `fn` is given the number of the attempt, and `clock` says when it begins.
pub mod Settled
mod Tests
use cloud_mesh.Common.{ℕ, ◌-◌, String, Bool, true, false, List, [], ◌∷◌, ◌++◌}
use cloud_mesh.Common.KeyValue.{KeyValue}
use cloud_mesh.CircuitBreaker.{
  Circuit, CircuitBreakerConfig, BreakerError, circuit_open, failed, Outcome, returned, threw,
  with_circuit_breaker,
}
use cloud_mesh.Retry.{RetryConfig, RetryOptions, with_retry}

-- The gateway's environment, and how the retries sleep and draw their jitter.
pub record ResilienceEnv (Store : Type 0) : Type 0 where
  pub retry : RetryConfig
  pub circuit : CircuitBreakerConfig
  pub sleep : ℕ → Store → Store
  pub unit : ℕ
  pub random : ℕ → ℕ

pub data ResilienceError (E : Type 0) : Type 0 where
  service_unavailable : String → ResilienceError E
  provider_failed : E → ResilienceError E

pub record Sample : Type 0 where
  pub provider : String
  pub latency_ms : ℕ
  pub success : Bool

module _ (redis : KeyValue Circuit) {E : Type 0} (env : ResilienceEnv redis.Store) where
  open redis use {Store}

  -- `!(err instanceof CircuitOpenError)`
  abbrev pub not_circuit_open : BreakerError E → Bool
  not_circuit_open (circuit_open name) = false
  not_circuit_open (failed e) = true

  abbrev pub retry_options : RetryOptions Store (BreakerError E)
  retry_options = record {
    should_retry = not_circuit_open;
    sleep = env.sleep;
    unit = env.unit;
    random = env.random;
  }

  module _ {A : Type 0} where
    -- The `catch`.
    abbrev pub mapped : Store × Outcome (BreakerError E) A → Store × Outcome (ResilienceError E) A
    mapped (s, returned a) = (s, returned a)
    mapped (s, threw (circuit_open name)) = (s, threw (service_unavailable name))
    mapped (s, threw (failed e)) = (s, threw (provider_failed e))

    abbrev pub guarded :
        String
        → (ℕ → Store → Store × Outcome E A)
        → (ℕ → ℕ)
        → ℕ
        → Store
        → Store × Outcome (BreakerError E) A
    guarded name fn clock attempt s =
        with_circuit_breaker redis name env.circuit (fn attempt) (clock attempt) s

    unfoldable pub call_provider_resilient :
        String
        → (ℕ → Store → Store × Outcome E A)
        → (ℕ → ℕ)
        → BreakerError E
        → Store
        → Store × Outcome (ResilienceError E) A
    call_provider_resilient name fn clock undefined s =
        mapped (with_retry env.retry retry_options (guarded name fn clock) undefined s)

    -- `recordProviderOutcome`, for the outcome.
    abbrev pub recorded_outcome :
        String
        → ℕ
        → List Sample
        → Store × Outcome (ResilienceError E) A
        → (Store × List Sample) × Outcome (ResilienceError E) A
    recorded_outcome name latency samples (s, returned a) = (
      (s, samples ++ record { provider = name; latency_ms = latency; success = true } ∷ []),
      returned a,
    )
    recorded_outcome name latency samples (s, threw (service_unavailable p)) =
        ((s, samples), threw (service_unavailable p))
    recorded_outcome name latency samples (s, threw (provider_failed e)) = (
      (s, samples ++ record { provider = name; latency_ms = latency; success = false } ∷ []),
      threw (provider_failed e),
    )

    unfoldable pub call_provider_resilient_with_stats :
        String
        → (ℕ → Store → Store × Outcome E A)
        → (ℕ → ℕ)
        → BreakerError E
        → ℕ
        → Store × List Sample
        → (Store × List Sample) × Outcome (ResilienceError E) A
    unfolding call_provider_resilient
    call_provider_resilient_with_stats name fn clock undefined latency (s, samples) =
        recorded_outcome name latency samples (call_provider_resilient name fn clock undefined s)
