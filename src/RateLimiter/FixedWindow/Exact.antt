-- ===== src/RateLimiter/FixedWindow/Exact.antt =====
-- A fixed window admits exactly its limit.
use mathlib.Core.Bool.{cond}
use cloud_mesh.Common.{
  ℕ, suc, ◌+◌, ◌-◌, ◌≤◌, ◌<◌, ◌≡◌, ◌⊎◌, inl, inr, none, some, List, [], ◌∷◌, arith, All, min,
  length, leb,
}
use cloud_mesh.RateLimiter.FixedWindow.{
  FixedWindowConfig, Counter, Counters, window_start, fixed_window,
}

unfoldable pub admitted : FixedWindowConfig → List ℕ → Counters → ℕ
admitted cfg [] s = 0
admitted cfg (now ∷ ts) s =
    cond (fixed_window cfg now s).1.allowed 1 0 + admitted cfg ts (fixed_window cfg now s).0

-- The times of one window.
abbrev pub InWindow : FixedWindowConfig → ℕ → ℕ → Type 0
InWindow cfg start t = (start ≤ t) × (t < start + cfg.window_ms) × (window_start cfg t ≡ start)

-- The window's counter holds `n` and lasts to the end of the window.
abbrev pub Holds : FixedWindowConfig → ℕ → ℕ → Counters → Type 0
Holds cfg start n s =
    ((n ≡ 0) × (s start ≡ none))
    ⊎ ((c : Counter) × (s start ≡ some c) × (c.count ≡ n) × (start + cfg.window_ms ≤ c.expires_at))

fixed_window-Holds :
    (cfg : FixedWindowConfig) (start now n : ℕ) (s : Counters)
    → InWindow cfg start now
    → Holds cfg start n s
    → ((fixed_window cfg now s).1.allowed ≡ leb (suc n) cfg.limit)
      × Holds cfg start (suc n) (fixed_window cfg now s).0
unfolding fixed_window
fixed_window-Holds cfg start now n s (after, before, same) (inl (zeroed, absent)) = (
  ground arith,
  inr (
    record { count = 1; expires_at = now + cfg.window_ms },
    ground arith,
    omega arith,
    omega arith,
  ),
)
fixed_window-Holds cfg start now n s (after, before, same) (inr (c, present, counted, lasts)) =
    (ground arith, inr (record c { count = c.count + 1 }, ground arith, omega arith, lasts))

-- Whatever the order of a window's requests, and however many there are, the counter outlives the
-- window, and the requests admitted are exactly as many as the limit leaves after the `n` already
-- counted, or all of them if that is more.
pub admitted_exact :
    (cfg : FixedWindowConfig) (start n : ℕ) (ts : List ℕ) (s : Counters)
    → All (InWindow cfg start) ts
    → Holds cfg start n s
    → admitted cfg ts s ≡ min (cfg.limit - n) (length ts)
unfolding admitted
admitted_exact cfg start n [] s within h = omega arith
admitted_exact cfg start n (now ∷ ts) s within h =
    let (verdict, next) = fixed_window-Holds cfg start now n s within.0 h in
    rw verdict
      (ground (arith, admitted_exact cfg start (suc n) ts (fixed_window cfg now s).0 within.1 next))
