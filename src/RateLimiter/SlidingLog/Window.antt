-- ===== src/RateLimiter/SlidingLog/Window.antt =====
-- The log is exact: it holds the requests admitted in the window that ends now.
use cloud_mesh.Common.{
  ℕ, ◌≤◌, ◌<◌, ◌≡◌, refl, ap, ◌∙◌, List, [], ◌∷◌, arith, filter, length, length-filter-le,
  if◌then◌else◌,
}
use cloud_mesh.RateLimiter.SlidingLog.{SlidingWindowLogConfig, live, sliding_window_log}

-- The log beside all requests ever admitted, newest first.
pub record Trace : Type 0 where
  pub log : List ℕ
  pub history : List ℕ

unfoldable pub serve : SlidingWindowLogConfig → ℕ → Trace → Trace
serve cfg now t =
    let (log, result) = sliding_window_log cfg now t.log in
    record { log = log; history = if result.allowed then now ∷ t.history else t.history }

-- Requests in the order of their times; the last time is the list's, or `since`.
unfoldable pub serve_all : SlidingWindowLogConfig → List ℕ → Trace → Trace
serve_all cfg [] t = t
serve_all cfg (now ∷ ts) t = serve_all cfg ts (serve cfg now t)

abbrev pub last : ℕ → List ℕ → ℕ
last since [] = since
last since (now ∷ ts) = last now ts

abbrev pub Ordered : ℕ → List ℕ → Type 0
Ordered since [] = Unit {0}
Ordered since (t ∷ ts) = (since ≤ t) × Ordered t ts

abbrev pub Tracks : SlidingWindowLogConfig → ℕ → Trace → Type 0
Tracks cfg now t = (t.log ≡ filter (live cfg now) t.history) × (length t.log ≤ cfg.limit)

filter_later :
    (cfg : SlidingWindowLogConfig) (now later : ℕ) (ts : List ℕ)
    → now ≤ later
    → filter (live cfg later) (filter (live cfg now) ts) ≡ filter (live cfg later) ts
filter_later cfg now later [] h = refl
filter_later cfg now later (t ∷ ts) h = ground (arith, filter_later cfg now later ts h)

serve-Tracks :
    (cfg : SlidingWindowLogConfig) (before now : ℕ) (t : Trace)
    → 0 < cfg.window_ms
    → before ≤ now
    → Tracks cfg before t
    → Tracks cfg now (serve cfg now t)
unfolding serve sliding_window_log
serve-Tracks cfg before now t pos h v =
    let same : filter (live cfg now) t.log ≡ filter (live cfg now) t.history =
      ap (filter (live cfg now)) v.0 ∙ filter_later cfg before now t.history h in
    let fits = length-filter-le (live cfg now) t.log in (ground (arith, same), ground (arith, fits))

-- For requests in the order of their times, from a log that holds exactly the requests admitted
-- within `windowMs` up to a time before them, as an empty log and history do: the log holds exactly
-- the requests admitted within `windowMs` up to the last one, and these are never more than the
-- limit.
pub serve_all-Tracks :
    (cfg : SlidingWindowLogConfig) (since : ℕ) (ts : List ℕ) (t : Trace)
    → 0 < cfg.window_ms
    → Ordered since ts
    → Tracks cfg since t
    → Tracks cfg (last since ts) (serve_all cfg ts t)
unfolding serve_all
serve_all-Tracks cfg since [] t pos h v = v
serve_all-Tracks cfg since (now ∷ ts) t pos h v =
    serve_all-Tracks cfg now ts (serve cfg now t) pos h.1 (serve-Tracks cfg since now t pos h.0 v)
