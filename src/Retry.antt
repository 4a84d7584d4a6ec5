-- ===== src/Retry.antt =====
-- packages/circuit-breaker/src/retry.ts. `W` is everything that the retried call, the sleep and
-- other code read and write. The value that `random()` gives for an attempt is `r / unit`, with
-- `r < unit`; a delay is counted in units of 1 / (2 * unit) ms, so that it is exact. The rounding
-- of JavaScript's numbers is not modelled.
pub mod Backoff
pub mod Attempts
mod Tests
use cloud_mesh.Common.{
  ℕ, zero, suc, ◌+◌, ◌-◌, ◌*◌, ◌^◌, Bool, true, false, not, ◌||◌, leb, if◌then◌else◌,
}
use cloud_mesh.CircuitBreaker.{Outcome, returned, threw}

pub record RetryConfig : Type 0 where
  pub max_attempts : ℕ
  pub base_delay_ms : ℕ

unfoldable pub exponential : ℕ → RetryConfig → ℕ
exponential attempt config = config.base_delay_ms * 2 ^ (attempt - 1)

-- `exponential + random() * (exponential / 2)`
unfoldable pub compute_backoff_delay : ℕ → RetryConfig → ℕ → ℕ → ℕ
compute_backoff_delay attempt config unit r =
    2 * unit * exponential attempt config + r * exponential attempt config

pub record RetryOptions (W E : Type 0) : Type 0 where
  pub should_retry : E → Bool
  pub sleep : ℕ → W → W
  pub unit : ℕ
  pub random : ℕ → ℕ

module _ {W E A : Type 0} (config : RetryConfig) (options : RetryOptions W E) where
  open options use {should_retry, sleep, unit, random}

  -- The body of the loop for one outcome; `again` is the rest of the loop.
  after_attempt : ℕ → (E → W → W × Outcome E A) → W × Outcome E A → W × Outcome E A
  after_attempt attempt again (w, returned a) = (w, returned a)
  after_attempt attempt again (w, threw e) =
      if leb config.max_attempts attempt || not (should_retry e)
      then (w, threw e)
      else again e (sleep (compute_backoff_delay attempt config unit (random attempt)) w)

  -- The loop with `left` rounds to go; past the last round it throws `lastError`.
  retry_loop : (ℕ → W → W × Outcome E A) → ℕ → ℕ → E → W → W × Outcome E A
  unfolding after_attempt
  retry_loop fn zero attempt last_error w = (w, threw last_error)
  retry_loop fn (suc left) attempt last_error w =
      after_attempt attempt (retry_loop fn left (attempt + 1)) (fn attempt w)

  -- `undefined` is the value of `lastError` before any attempt.
  unfoldable pub with_retry : (ℕ → W → W × Outcome E A) → E → W → W × Outcome E A
  unfolding retry_loop
  with_retry fn undefined w = retry_loop fn config.max_attempts 1 undefined w
