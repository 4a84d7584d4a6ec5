-- ===== src/RateLimiter/TokenBucket.antt =====
-- packages/rate-limiter/src/tokenBucket.ts. The refill is `refill_num / refill_den` tokens a
-- second. Tokens are counted in units of 1 / (1000 * refill_den) of a token, so that a millisecond
-- brings `refill_num` units and every quantity of the script is a whole number of units; the
-- rounding of floating point is not modelled. The bucket's EXPIRE is later than the time at which
-- it would be full, and a bucket that is gone counts as full.
pub mod Rate
pub mod Retry
use cloud_mesh.Common.{
  ℕ, ◌+◌, ◌-◌, ◌*◌, ◌/◌, min, Bool, true, false, Option, none, some, leb, if◌then◌else◌,
}

pub record TokenBucketConfig : Type 0 where
  pub capacity : ℕ
  pub refill_num : ℕ
  pub refill_den : ℕ
  pub requested : ℕ

-- The hash's two fields, which are written together.
pub record Bucket : Type 0 where
  pub tokens : ℕ
  pub last_refill : ℕ

abbrev pub unit : TokenBucketConfig → ℕ
unit cfg = 1000 * cfg.refill_den

abbrev pub full : TokenBucketConfig → ℕ
full cfg = cfg.capacity * unit cfg

abbrev pub price : TokenBucketConfig → ℕ
price cfg = cfg.requested * unit cfg

-- The bucket that the script reads: a full one if there is none.
abbrev pub read : TokenBucketConfig → ℕ → Option Bucket → Bucket
read cfg now none = record { tokens = full cfg; last_refill = now }
read cfg now (some b) = b

-- The tokens after the lazy refill; `now - last` on numbers is `math.max(0, now - lastRefill)`.
unfoldable pub refill : TokenBucketConfig → ℕ → Bucket → ℕ
refill cfg now b = min (full cfg) (b.tokens + (now - b.last_refill) * cfg.refill_num)

-- SCRIPT: spend if the bucket holds enough, and write it back either way.
unfoldable pub bucket_script : TokenBucketConfig → ℕ → Option Bucket → Bucket × Bool
bucket_script cfg now stored =
    let tokens = refill cfg now (read cfg now stored) in
    if leb (price cfg) tokens
    then (record { tokens = tokens - price cfg; last_refill = now }, true)
    else (record { tokens = tokens; last_refill = now }, false)

-- `resetAt - now` in milliseconds is `deficit / refill_num`.
unfoldable pub deficit : TokenBucketConfig → Bucket → ℕ
deficit cfg b = price cfg - b.tokens

pub record TokenBucketResult : Type 0 where
  pub allowed : Bool
  pub remaining : ℕ
  pub deficit_units : ℕ

unfoldable pub token_bucket : TokenBucketConfig → ℕ → Option Bucket → Bucket × TokenBucketResult
token_bucket cfg now stored =
    let (b, allowed) = bucket_script cfg now stored in
    (
      b,
      record { allowed = allowed; remaining = b.tokens / unit cfg; deficit_units = deficit cfg b },
    )
