-- ===== src/RateLimiter/FixedWindow.antt =====
-- packages/rate-limiter/src/fixedWindow.ts. The state is the counters of one identifier, by the
-- window start that ends their key. A counter is gone once its PEXPIRE has passed.
pub mod Exact
use cloud_mesh.Common.{
  ℕ, ◌+◌, ◌-◌, ◌*◌, ◌/◌, Bool, true, false, Option, none, some, leb, ◌==◌, if◌then◌else◌,
}
use cloud_mesh.RateLimiter.{RateLimitResult}

pub record FixedWindowConfig : Type 0 where
  pub limit : ℕ
  pub window_ms : ℕ

pub record Counter : Type 0 where
  pub count : ℕ
  pub expires_at : ℕ

abbrev pub Counters : Type 0
Counters = ℕ → Option Counter

-- What INCR finds under a key at a time.
abbrev pub current : ℕ → Option Counter → ℕ
current now none = 0
current now (some c) = if leb c.expires_at now then 0 else c.count

-- INCR, and PEXPIRE on the first increment only.
abbrev pub increment : ℕ → ℕ → Option Counter → Counter
increment window_ms now none = record { count = 1; expires_at = now + window_ms }
increment window_ms now (some c) =
    if leb c.expires_at now
    then record { count = 1; expires_at = now + window_ms }
    else record c { count = c.count + 1 }

unfoldable pub window_start : FixedWindowConfig → ℕ → ℕ
window_start cfg now = now / cfg.window_ms * cfg.window_ms

unfoldable pub fixed_window : FixedWindowConfig → ℕ → Counters → Counters × RateLimitResult
fixed_window cfg now s =
    let start = window_start cfg now in
    let c = increment cfg.window_ms now (s start) in
    (
      λ k. if k == start then some c else s k,
      record {
        allowed = leb c.count cfg.limit;
        remaining = cfg.limit - c.count;
        reset_at = start + cfg.window_ms;
      },
    )
