-- ===== src/RateLimiter/SlidingLog.antt =====
-- packages/rate-limiter/src/slidingWindowLog.ts. The sorted set of one identifier is the list of
-- its members' scores: the member's UUID makes each request its own entry. The set's PEXPIRE comes
-- when every entry is out of the window, so it removes nothing that a trim would keep.
pub mod Window
use cloud_mesh.Common.{
  ℕ, ◌+◌, ◌-◌, Bool, true, false, List, [], ◌∷◌, filter, length, ltb, if◌then◌else◌,
}
use cloud_mesh.RateLimiter.{RateLimitResult}

pub record SlidingWindowLogConfig : Type 0 where
  pub limit : ℕ
  pub window_ms : ℕ

-- ZREMRANGEBYSCORE removes the scores up to `now - windowMs`.
abbrev pub live : SlidingWindowLogConfig → ℕ → ℕ → Bool
live cfg now t = ltb now (t + cfg.window_ms)

unfoldable pub sliding_window_log : SlidingWindowLogConfig → ℕ → List ℕ → List ℕ × RateLimitResult
sliding_window_log cfg now log =
    let kept = filter (live cfg now) log in
    let count = length kept in
    if ltb count cfg.limit
    then (
      now ∷ kept,
      record {
        allowed = true;
        remaining = cfg.limit - (count + 1);
        reset_at = now + cfg.window_ms;
      },
    )
    else (
      kept,
      record { allowed = false; remaining = cfg.limit - count; reset_at = now + cfg.window_ms },
    )
