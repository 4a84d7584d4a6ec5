-- ===== src/RateLimiter/TokenBucket/Retry.antt =====
-- When a denied caller may come back.
use cloud_mesh.Common.{ℕ, ◌+◌, ◌-◌, ◌*◌, ◌≤◌, ◌<◌, ◌≡◌, ◌↔◌, true, false, Option, some, arith}
use cloud_mesh.RateLimiter.TokenBucket.{
  TokenBucketConfig, Bucket, full, price, refill, bucket_script, deficit, token_bucket,
}

-- A bucket never holds more than its capacity, and what a denied call finds is what it leaves, so
-- `remaining` never exceeds the capacity.
pub bucket_script-le-full :
    (cfg : TokenBucketConfig) (now : ℕ) (stored : Option Bucket)
    → (bucket_script cfg now stored).0.tokens ≤ full cfg
unfolding bucket_script refill
bucket_script-le-full cfg now stored = ground arith

price-le-full : (cfg : TokenBucketConfig) → cfg.requested ≤ cfg.capacity → price cfg ≤ full cfg
price-le-full cfg h = grind arith

denial :
    (cfg : TokenBucketConfig) (now : ℕ) (stored : Option Bucket)
    → (bucket_script cfg now stored).1 ≡ false
    → ((bucket_script cfg now stored).0.last_refill ≡ now)
      × ((bucket_script cfg now stored).0.tokens < price cfg)
unfolding bucket_script
denial cfg now stored d = ground arith

covered :
    (cfg : TokenBucketConfig) (later : ℕ) (b : Bucket)
    → price cfg ≤ full cfg
    → ((bucket_script cfg later (some b)).1 ≡ true)
      ↔ (price cfg ≤ b.tokens + (later - b.last_refill) * cfg.refill_num)
unfolding bucket_script refill
covered cfg later b h = ground arith

-- A caller that was denied at `now` and comes back at `later`, with no other call between, is
-- admitted exactly if the time passed covers the deficit that the first answer reported, as long
-- as one call costs no more than the bucket holds.
pub token_bucket_retry :
    (cfg : TokenBucketConfig) (now later : ℕ) (stored : Option Bucket)
    → cfg.requested ≤ cfg.capacity
    → (token_bucket cfg now stored).1.allowed ≡ false
    → let (b, denied) = token_bucket cfg now stored in
      ((token_bucket cfg later (some b)).1.allowed ≡ true)
      ↔ (denied.deficit_units ≤ (later - now) * cfg.refill_num)
unfolding token_bucket deficit
token_bucket_retry cfg now later stored h d =
    let b = (bucket_script cfg now stored).0 in
    let (stamped, short) = denial cfg now stored d in
    let (enough, admits) = rw stamped at (covered cfg later b (price-le-full cfg h)) in
    (λ a. omega (arith, enough a), λ paid. admits (omega arith))
