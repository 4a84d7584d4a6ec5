-- ===== src/RateLimiter/SlidingCounter.antt =====
-- packages/rate-limiter/src/slidingWindowCounter.ts. Times `windowMs`, the weighted count is a
-- whole number: `prev * (windowMs - elapsed) + curr * windowMs`; the rounding of floating point is
-- not modelled. A counter's PEXPIRE of two windows outlives its use as the previous one.
pub mod Bound
use cloud_mesh.Common.{
  ℕ, zero, suc, ◌+◌, ◌-◌, ◌*◌, ◌/◌, ◌%◌, Bool, true, false, ltb, ◌==◌, if◌then◌else◌,
}
use cloud_mesh.RateLimiter.{RateLimitResult}

pub record SlidingWindowCounterConfig : Type 0 where
  pub limit : ℕ
  pub window_ms : ℕ

-- The counters of one identifier by the number of their window, `Math.floor(now / windowMs)`; a
-- missing one reads as 0.
abbrev pub Counters : Type 0
Counters = ℕ → ℕ

-- The window before the first has a negative start, and no counter.
abbrev pub previous : Counters → ℕ → ℕ
previous s zero = 0
previous s (suc w) = s w

-- `weighted`, times `windowMs`.
unfoldable pub weighted : SlidingWindowCounterConfig → ℕ → Counters → ℕ
weighted cfg now s =
    previous s (now / cfg.window_ms) * (cfg.window_ms - now % cfg.window_ms)
    + s (now / cfg.window_ms) * cfg.window_ms

-- SCRIPT: the counters after it, whether the request is allowed, and the weighted count.
unfoldable pub sliding_script : SlidingWindowCounterConfig → ℕ → Counters → Counters × Bool × ℕ
sliding_script cfg now s =
    if ltb (weighted cfg now s) (cfg.limit * cfg.window_ms)
    then (
      λ w. if w == now / cfg.window_ms then s w + 1 else s w,
      true,
      weighted cfg now s + cfg.window_ms,
    )
    else (s, false, weighted cfg now s)

unfoldable pub sliding_window_counter :
    SlidingWindowCounterConfig → ℕ → Counters → Counters × RateLimitResult
sliding_window_counter cfg now s =
    let (s', allowed, total) = sliding_script cfg now s in
    (
      s',
      record {
        allowed = allowed;
        remaining = (cfg.limit * cfg.window_ms - total) / cfg.window_ms;
        reset_at = now / cfg.window_ms * cfg.window_ms + cfg.window_ms;
      },
    )
