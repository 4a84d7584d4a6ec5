-- ===== src/RateLimiter/TokenBucket/Rate.antt =====
-- How many requests a token bucket admits.
use mathlib.Core.Bool.{cond}
use cloud_mesh.Common.{ℕ, ◌+◌, ◌-◌, ◌*◌, ◌≤◌, ◌≡◌, some, List, [], ◌∷◌, arith}
use cloud_mesh.RateLimiter.TokenBucket.{TokenBucketConfig, Bucket, price, refill, bucket_script}

-- The requests admitted at these times.
unfoldable pub admitted : TokenBucketConfig → List ℕ → Bucket → ℕ
admitted cfg [] b = 0
admitted cfg (now ∷ ts) b =
    cond (bucket_script cfg now (some b)).1 1 0 + admitted cfg ts (bucket_script cfg now (some b)).0

-- Times in order, from `since` to `until`.
abbrev pub Ordered : ℕ → ℕ → List ℕ → Type 0
Ordered since until [] = since ≤ until
Ordered since until (t ∷ ts) = (since ≤ t) × Ordered t until ts

Ordered-le : (since until : ℕ) (ts : List ℕ) → Ordered since until ts → since ≤ until
Ordered-le since until [] h = h
Ordered-le since until (t ∷ ts) h = omega (arith, Ordered-le t until ts h.1)

script_spends :
    (cfg : TokenBucketConfig) (now : ℕ) (b : Bucket)
    → let after = bucket_script cfg now (some b) in
      (cond after.1 1 0 * price cfg + after.0.tokens
        ≤ b.tokens + (now - b.last_refill) * cfg.refill_num)
      × (after.0.last_refill ≡ now)
unfolding bucket_script refill
script_spends cfg now b = ground arith

elapsed_splits : (a b c k : ℕ) → a ≤ b → b ≤ c → (b - a) * k + (c - b) * k ≡ (c - a) * k
elapsed_splits a b c k h h' =
    let whole : c - a ≡ (b - a) + (c - b) = omega arith in rw whole (omega arith)

-- Over any requests in the order of their times, the tokens spent and those left are at most the
-- tokens held at the start and those that accrue from the last refill to the end.
pub spent_bound :
    (cfg : TokenBucketConfig) (ts : List ℕ) (b : Bucket) (until : ℕ)
    → Ordered b.last_refill until ts
    → admitted cfg ts b * price cfg ≤ b.tokens + (until - b.last_refill) * cfg.refill_num
unfolding admitted
spent_bound cfg [] b until h = omega arith
spent_bound cfg (now ∷ ts) b until h =
    let after = (bucket_script cfg now (some b)).0 in
    let (spends, stamped) = script_spends cfg now b in
    let later : Ordered after.last_refill until ts = rw stamped h.1 in
    omega (
      arith,
      spends,
      rw stamped at (spent_bound cfg ts after until later),
      elapsed_splits b.last_refill now until cfg.refill_num h.0 (Ordered-le now until ts h.1),
    )
