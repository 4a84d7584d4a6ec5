-- ===== src/RateLimiter/Gate.antt =====
-- apps/gateway/src/middleware/requireRateLimit.ts and the Retry-After header of RateLimitError in
-- apps/gateway/src/errors.ts: the bucket of an API key holds `rateLimitRpm` tokens and regains
-- `rateLimitRpm / 60` a second. RateLimiter/Rejected has the event that a rejection emits: it
-- changes nothing that the gate reads.
use cloud_mesh.Common.{ℕ, ◌+◌, ◌-◌, ◌*◌, ◌/◌, Option, max, if◌then◌else◌}
use cloud_mesh.CircuitBreaker.{Outcome, returned, threw}
use cloud_mesh.RateLimiter.TokenBucket.{TokenBucketConfig, Bucket, token_bucket}

unfoldable pub config_of : ℕ → TokenBucketConfig
config_of rpm = record { capacity = rpm; refill_num = rpm; refill_den = 60; requested = 1 }

-- `Math.max(1, Math.ceil((resetAt - Date.now()) / 1000))`, with the clock read again at `clock`.
unfoldable pub retry_after_seconds : ℕ → ℕ → ℕ → ℕ → ℕ
retry_after_seconds rpm now clock deficit_units =
    max 1 (((deficit_units - (clock - now) * rpm) + (1000 * rpm - 1)) / (1000 * rpm))

-- The gate passes the request on, or throws RateLimitError with its Retry-After.
unfoldable pub require_rate_limit : ℕ → ℕ → ℕ → Option Bucket → Bucket × Outcome ℕ (Unit {0})
require_rate_limit rpm now clock stored =
    let (b, result) = token_bucket (config_of rpm) now stored in
    if result.allowed
    then (b, returned tt)
    else (b, threw (retry_after_seconds rpm now clock result.deficit_units))
