-- ===== src/RateLimiter.antt =====
-- packages/rate-limiter: four limiters, each a Lua script over the state of one identifier and the
-- arithmetic around it. Times are whole milliseconds, and Redis' clock is the callers'.
pub mod FixedWindow
pub mod SlidingLog
pub mod SlidingCounter
pub mod TokenBucket
pub mod Gate
pub mod Rejected
pub mod Announced
pub mod Told
mod Tests
use cloud_mesh.Common.{ℕ, Bool}

-- types.ts. A limiter whose `remaining` or `resetAt` is a fraction says in which unit it counts.
pub record RateLimitResult : Type 0 where
  pub allowed : Bool
  pub remaining : ℕ
  pub reset_at : ℕ
