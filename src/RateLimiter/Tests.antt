-- ===== src/RateLimiter/Tests.antt =====
-- Runs of the limiters, and their theorems at concrete inputs.
use cloud_mesh.Common.{
  ℕ, ◌+◌, ◌-◌, ◌*◌, ◌≤◌, ◌≡◌, refl, none, List, [], ◌∷◌, arith, String, false, map,
}
use cloud_mesh.Common.KeyValue.{KeyValue, memory, blank}
use cloud_mesh.Tenant.{is_uuid}
use cloud_mesh.CircuitBreaker.{returned, threw}
use cloud_mesh.RateLimiter.FixedWindow.{FixedWindowConfig, Counters}
use cloud_mesh.RateLimiter.SlidingLog.{SlidingWindowLogConfig, sliding_window_log}
use cloud_mesh.RateLimiter.SlidingLog.Window.{Trace, Tracks, serve_all, serve, serve_all-Tracks}
use cloud_mesh.RateLimiter.TokenBucket.{
  Bucket, token_bucket, bucket_script, refill, deficit, price, full,
}
use cloud_mesh.RateLimiter.TokenBucket.Rate
use cloud_mesh.RateLimiter.TokenBucket.Retry.{bucket_script-le-full}
use cloud_mesh.RateLimiter.Gate.{require_rate_limit, retry_after_seconds, config_of}
use cloud_mesh.RateLimiter.Rejected.{GatedRequest, GateWorld}
use cloud_mesh.RateLimiter.Announced.{IsSpaced, gate_all, ask_all, gate_all-IsSpaced}
use cloud_mesh.RateLimiter.Told.{tell_all, gate_all-tell_all}

abbrev fixed : FixedWindowConfig
fixed = record { limit = 2; window_ms = 1000 }

abbrev no_counters : Counters
no_counters k = none

abbrev sliding : SlidingWindowLogConfig
sliding = record { limit = 2; window_ms = 1000 }

abbrev no_requests : Trace
no_requests = record { log = []; history = [] }

serve_all-Tracks_example :
    Tracks sliding 1500 (serve_all sliding (10 ∷ 20 ∷ 30 ∷ 1015 ∷ 1500 ∷ []) no_requests)
serve_all-Tracks_example =
    serve_all-Tracks sliding 0 (10 ∷ 20 ∷ 30 ∷ 1015 ∷ 1500 ∷ []) no_requests (omega arith)
      (omega arith) (refl, omega arith)

log_runs :
    (serve_all sliding (10 ∷ 20 ∷ 30 ∷ 1015 ∷ 1500 ∷ []) no_requests).history
    ≡ 1500 ∷ 1015 ∷ 20 ∷ 10 ∷ []
unfolding serve_all serve sliding_window_log
log_runs = refl

-- 60 requests a minute, and a bucket with one token left.
abbrev rpm : ℕ
rpm = 60

abbrev low : Bucket
low = record { tokens = 60_000; last_refill = 5000 }

spent_bound_example :
    Rate.admitted (config_of rpm) (5000 ∷ 5100 ∷ 6200 ∷ []) low * price (config_of rpm)
    ≤ 60_000 + (6200 - 5000) * 60
unfolding config_of
spent_bound_example =
    Rate.spent_bound (config_of rpm) (5000 ∷ 5100 ∷ 6200 ∷ []) low 6200 (omega arith)

tokens_run : Rate.admitted (config_of rpm) (5000 ∷ 5100 ∷ 6200 ∷ []) low ≡ 2
unfolding Rate.admitted bucket_script refill config_of
tokens_run = refl

abbrev empty : Bucket
empty = record { tokens = 0; last_refill = 5000 }

bucket_script-le-full_example :
    (bucket_script (config_of rpm) 5000 none).0.tokens ≤ full (config_of rpm)
bucket_script-le-full_example = bucket_script-le-full (config_of rpm) 5000 none

abbrev slots : KeyValue ℕ
slots = memory ℕ

abbrev bucket_store : KeyValue Bucket
bucket_store = memory Bucket

abbrev acme : String
acme = "11111111-2222-3333-4444-555555555555"

-- A key with one request a minute.
abbrev asks : ℕ → GatedRequest
asks now = record {
  org_id = acme;
  api_key_id = "k1";
  rate_limit_rpm = 1;
  now = now;
  clock = now;
  claim_fails = false;
  write_fails = false;
}

abbrev quiet : GateWorld slots bucket_store
quiet = record { buckets_held = blank; slots = blank; outbox = [] }

-- The second request is refused and announced, the third only refused.
abbrev three_requests : List GatedRequest
three_requests = asks 1000 ∷ asks 2000 ∷ asks 3000 ∷ []

gate_all-IsSpaced_example :
    IsSpaced (gate_all slots bucket_store three_requests quiet).0.outbox
    × ((gate_all slots bucket_store three_requests quiet).1
        ≡ map (λ a. a.1) (ask_all slots bucket_store three_requests blank))
gate_all-IsSpaced_example = gate_all-IsSpaced slots bucket_store three_requests quiet (tt, tt)

gate_all-tell_all_example :
    (gate_all slots bucket_store three_requests quiet).0.outbox
    ≡ tell_all (ask_all slots bucket_store three_requests blank) []
unfolding is_uuid
gate_all-tell_all_example =
    gate_all-tell_all slots bucket_store three_requests quiet
      ((refl, refl, refl), ((refl, refl, refl), ((refl, refl, refl), tt))) (λ org_id now. refl)

one_announced :
    map (λ e. e.occurred_at) (gate_all slots bucket_store three_requests quiet).0.outbox ≡ 2000 ∷ []
unfolding gate_all require_rate_limit token_bucket bucket_script refill deficit config_of
one_announced = refl

two_refused :
    (gate_all slots bucket_store three_requests quiet).1 ≡ returned tt ∷ threw 59 ∷ threw 58 ∷ []
unfolding gate_all require_rate_limit token_bucket bucket_script refill deficit config_of
    retry_after_seconds
two_refused = refl
