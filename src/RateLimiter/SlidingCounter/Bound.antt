-- ===== src/RateLimiter/SlidingCounter/Bound.antt =====
-- What the weighted counters bound.
use mathlib.Core.Bool.{cond}
use native.Mathlib.Nat.{div-add-mod'}
use cloud_mesh.Common.{
  ℕ, zero, suc, ◌+◌, ◌-◌, ◌*◌, ◌/◌, ◌%◌, ◌≤◌, ◌<◌, ◌≡◌, refl, ap, inl, inr, Bool-cases, true, List,
  [], ◌∷◌, arith,
}
use cloud_mesh.RateLimiter.SlidingCounter.{
  SlidingWindowCounterConfig, Counters, previous, weighted, sliding_script, sliding_window_counter,
}

unfoldable pub admitted : SlidingWindowCounterConfig → List ℕ → Counters → ℕ
admitted cfg [] s = 0
admitted cfg (now ∷ ts) s =
    cond (sliding_window_counter cfg now s).1.allowed 1 0
    + admitted cfg ts (sliding_window_counter cfg now s).0

step_counts :
    (cfg : SlidingWindowCounterConfig) (w now : ℕ) (s : Counters)
    → now / cfg.window_ms ≡ w
    → let (after, result) = sliding_window_counter cfg now s in
      (after w ≡ cond result.allowed 1 0 + s w) × (previous after w ≡ previous s w)
unfolding sliding_window_counter sliding_script
step_counts cfg zero now s h = (ground arith, refl)
step_counts cfg (suc w) now s h = (ground arith, ground arith)

step_admits :
    (cfg : SlidingWindowCounterConfig) (w now : ℕ) (s : Counters)
    → now / cfg.window_ms ≡ w
    → (sliding_window_counter cfg now s).1.allowed ≡ true
    → previous s w * (cfg.window_ms - now % cfg.window_ms) + s w * cfg.window_ms
      < cfg.limit * cfg.window_ms
unfolding sliding_window_counter sliding_script weighted
step_admits cfg w now s h a = ground arith

mod_mono : (m w a b : ℕ) → a / m ≡ w → b / m ≡ w → a ≤ b → a % m ≤ b % m
mod_mono m w a b h k le =
    omega
      (arith, ap (λ (x : ℕ). x * m) h, ap (λ (x : ℕ). x * m) k, div-add-mod' a m, div-add-mod' b m)

share_falls : (m w a b p : ℕ) → a / m ≡ w → b / m ≡ w → a ≤ b → p * (m - b % m) ≤ p * (m - a % m)
share_falls m w a b p h k le =
    mul_mono_right (m - b % m) (m - a % m) p (omega (arith, mod_mono m w a b h k le))
  where
    mul_mono_right : (x y n : ℕ) → x ≤ y → n * x ≤ n * y
    mul_mono_right x y n le' = grind arith

abbrev pub last : ℕ → List ℕ → ℕ
last since [] = since
last since (now ∷ ts) = last now ts

-- Times in order, all of one window.
abbrev pub Within : ℕ → ℕ → ℕ → List ℕ → Type 0
Within m w since [] = since / m ≡ w
Within m w since (t ∷ ts) = (since / m ≡ w) × (since ≤ t) × Within m w t ts

Within-head : (m w since : ℕ) (ts : List ℕ) → Within m w since ts → since / m ≡ w
Within-head m w since [] h = h
Within-head m w since (t ∷ ts) h = h.0

-- Over the requests of one window, in the order of their times, and once the weighted count is
-- below `limit + 1`: at the last request the previous window's remaining share and all that the
-- window has counted or admitted are still below `limit + 1` together.
pub admitted_bound :
    (cfg : SlidingWindowCounterConfig) (w since : ℕ) (ts : List ℕ) (s : Counters)
    → Within cfg.window_ms w since ts
    → previous s w * (cfg.window_ms - since % cfg.window_ms) + s w * cfg.window_ms
      < (cfg.limit + 1) * cfg.window_ms
    → previous s w * (cfg.window_ms - last since ts % cfg.window_ms)
        + (s w + admitted cfg ts s) * cfg.window_ms
      < (cfg.limit + 1) * cfg.window_ms
unfolding admitted
admitted_bound cfg w since [] s within h = omega arith
admitted_bound cfg w since (now ∷ ts) s (here, later, within) h =
    let m = cfg.window_ms in
    let after = (sliding_window_counter cfg now s).0 in
    let this = Within-head m w now ts within in
    let (counts, same) = step_counts cfg w now s this in
    let next : previous after w * (m - now % m) + after w * m < (cfg.limit + 1) * m =
      rw (same, counts)
        (elim (Bool-cases (sliding_window_counter cfg now s).1.allowed) [
          | inl go ↦ rw go (omega (arith, step_admits cfg w now s this go))
          | inr stay ↦
              rw stay (omega (arith, share_falls m w since now (previous s w) here this later))
        ]) in
    let rest = rw (same, counts) at (admitted_bound cfg w now ts after within next) in
    omega (arith, rest)
