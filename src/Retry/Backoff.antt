-- ===== src/Retry/Backoff.antt =====
-- How long `withRetry` waits.
use native.Mathlib.Nat.{pow-suc}
use cloud_mesh.Common.{ℕ, zero, suc, ◌+◌, ◌-◌, ◌*◌, ◌≤◌, ◌<◌, ◌≡◌, arith}
use cloud_mesh.Retry.{RetryConfig, exponential, compute_backoff_delay}

exponential-suc :
    (attempt : ℕ) (config : RetryConfig)
    → exponential (suc (suc attempt)) config ≡ 2 * exponential (suc attempt) config
unfolding exponential
exponential-suc attempt config =
    let next : suc (suc attempt) - 1 ≡ suc attempt = omega arith in
    let this : suc attempt - 1 ≡ attempt = omega arith in
    rw (next, this, pow-suc 2 attempt) (omega arith)

exponential-pos :
    (attempt : ℕ) (config : RetryConfig)
    → 0 < config.base_delay_ms
    → 0 < exponential (suc attempt) config
unfolding exponential
exponential-pos zero config h = omega arith
exponential-pos (suc attempt) config h =
    omega (arith, exponential-suc attempt config, exponential-pos attempt config h)

-- The delay before a retry is at least the exponential, and at most half as much again.
pub compute_backoff_delay_bounds :
    (attempt : ℕ) (config : RetryConfig) (unit r : ℕ)
    → r < unit
    → (2 * unit * exponential attempt config ≤ compute_backoff_delay attempt config unit r)
      × (compute_backoff_delay attempt config unit r ≤ 3 * unit * exponential attempt config)
unfolding compute_backoff_delay
compute_backoff_delay_bounds attempt config unit r h = grind arith

mul_below : (u r x : ℕ) → r < u → r * x + x ≤ u * x
mul_below u r x h = grind arith

jitter_below : (u r r' x : ℕ) → 0 < x → r < u → 2 * u * x + r * x < 2 * u * (2 * x) + r' * (2 * x)
jitter_below u r r' x pos h = omega (arith, mul_below u r x h)

-- The first attempt's delay starts from the base delay, and each later attempt's delay is longer
-- than the one before, whatever the two random values, as long as the base delay is positive.
pub compute_backoff_delay_grows :
    (attempt : ℕ) (config : RetryConfig) (unit r r' : ℕ)
    → 0 < config.base_delay_ms
    → r < unit
    → (exponential 1 config ≡ config.base_delay_ms)
      × (compute_backoff_delay (suc attempt) config unit r
          < compute_backoff_delay (suc (suc attempt)) config unit r')
unfolding compute_backoff_delay
compute_backoff_delay_grows attempt config unit r r' pos h = (
  unfold exponential in omega arith,
  rw (exponential-suc attempt config) (
      jitter_below unit r r' (exponential (suc attempt) config) (exponential-pos attempt config pos)
        h),
)
