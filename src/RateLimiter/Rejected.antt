-- ===== src/RateLimiter/Rejected.antt =====
-- apps/gateway/src/lib/platformEvents.ts, emitRateLimitedEvent, and its call in
-- apps/gateway/src/middleware/requireRateLimit.ts. A slot is stored with the time at which it
-- expires, in milliseconds, and what fails outside is an argument. One reading of the clock after the
-- refusal stands for the gate's, for Redis' at the claim and for the event's time.
use Prim.Native.String.{◌++◌ as ◌+++◌}
use cloud_mesh.Common.{
  ℕ, ◌+◌, ◌-◌, ◌*◌, String, Bool, true, false, Option, none, some, List, [], ◌∷◌, ◌++◌, ltb,
  if◌then◌else◌,
}
use cloud_mesh.Common.KeyValue.{KeyValue}
use cloud_mesh.Tenant.{with_tenant}
use cloud_mesh.CircuitBreaker.{Outcome, returned, threw}
use cloud_mesh.RateLimiter.TokenBucket.{Bucket, token_bucket}
use cloud_mesh.RateLimiter.Gate.{config_of, require_rate_limit}

abbrev pub rate_limited_dedupe_seconds : ℕ
rate_limited_dedupe_seconds = 60

-- `(resetAt - Date.now()) / 1000`, which is below 0 once the time has passed: the missing units
-- less those that have come back, over the units of a second.
pub record RetryAfter : Type 0 where
  pub missing : ℕ
  pub regained : ℕ
  pub per_second : ℕ

pub record RateLimitedEvent : Type 0 where
  pub org_id : String
  pub api_key_id : String
  pub retry_after : RetryAfter
  pub dedupe_window_seconds : ℕ
  pub occurred_at : ℕ

-- A request that passes the gate: its key with the key's plan, and the readings of the clock before
-- the bucket is asked and after a refusal.
pub record GatedRequest : Type 0 where
  pub org_id : String
  pub api_key_id : String
  pub rate_limit_rpm : ℕ
  pub now : ℕ
  pub clock : ℕ
  pub claim_fails : Bool
  pub write_fails : Bool

abbrev pub rate_limited_key : String → String
rate_limited_key org_id = "events:ratelimited:" +++ org_id

abbrev pub bucket_key : String → String
bucket_key api_key_id = "ratelimit:tokenbucket:" +++ api_key_id

-- A key that has expired is gone.
abbrev pub is_held : ℕ → Option ℕ → Bool
is_held now none = false
is_held now (some expires) = ltb now expires

-- `writeOutboxEvent` in its transaction.
abbrev pub write_rate_limited :
    Bool
    → RateLimitedEvent
    → List RateLimitedEvent
    → List RateLimitedEvent × Outcome String (Unit {0})
write_rate_limited fails e es =
    if fails then (es, threw "outbox_events") else (es ++ e ∷ [], returned tt)

module _ (redis : KeyValue ℕ) where
  -- `SET key 1 EX ttl NX`.
  unfoldable pub claim_dedupe_slot : String → ℕ → ℕ → redis.Store → redis.Store × Bool
  claim_dedupe_slot key ttl_seconds now s =
      if is_held now (redis.get s key)
      then (s, false)
      else (redis.put s key (now + 1000 * ttl_seconds), true)

  -- What `emit` throws is caught.
  abbrev pub emit_if :
      Bool
      → Bool
      → RateLimitedEvent
      → redis.Store
      → List RateLimitedEvent
      → redis.Store × List RateLimitedEvent
  emit_if false fails e s es = (s, es)
  emit_if true fails e s es = (s, (with_tenant e.org_id (write_rate_limited fails e) es).0)

  -- A claim that throws has not been made.
  unfoldable pub emit_rate_limited_event :
      Bool
      → Bool
      → RateLimitedEvent
      → redis.Store
      → List RateLimitedEvent
      → redis.Store × List RateLimitedEvent
  unfolding claim_dedupe_slot with_tenant
  emit_rate_limited_event claim_fails write_fails e s es =
      if claim_fails
      then (s, es)
      else let claim =
          claim_dedupe_slot (rate_limited_key e.org_id) rate_limited_dedupe_seconds e.occurred_at
            s in
        emit_if claim.1 write_fails e claim.0 es

  module _ (buckets : KeyValue Bucket) where
    pub record GateWorld : Type 0 where
      pub buckets_held : buckets.Store
      pub slots : redis.Store
      pub outbox : List RateLimitedEvent

    abbrev pub rejection_of : GatedRequest → Option Bucket → RateLimitedEvent
    rejection_of r stored = record {
      org_id = r.org_id;
      api_key_id = r.api_key_id;
      retry_after = record {
        missing = (token_bucket (config_of r.rate_limit_rpm) r.now stored).1.deficit_units;
        regained = (r.clock - r.now) * r.rate_limit_rpm;
        per_second = 1000 * r.rate_limit_rpm;
      };
      dedupe_window_seconds = rate_limited_dedupe_seconds;
      occurred_at = r.clock;
    }

    -- The event is written before the refusal is thrown.
    abbrev pub after_bucket :
        GatedRequest
        → Option Bucket
        → GateWorld
        → Outcome ℕ (Unit {0})
        → GateWorld × Outcome ℕ (Unit {0})
    after_bucket r stored w (returned passed) = (w, returned passed)
    after_bucket r stored w (threw seconds) =
        let emitted =
          emit_rate_limited_event r.claim_fails r.write_fails (rejection_of r stored) w.slots
            w.outbox in
        (record w { slots = emitted.0; outbox = emitted.1 }, threw seconds)

    unfoldable pub gate : GatedRequest → GateWorld → GateWorld × Outcome ℕ (Unit {0})
    unfolding emit_rate_limited_event
    gate r w =
        let stored = buckets.get w.buckets_held (bucket_key r.api_key_id) in
        let answer = require_rate_limit r.rate_limit_rpm r.now r.clock stored in
        after_bucket r stored
          (record w {
            buckets_held = buckets.put w.buckets_held (bucket_key r.api_key_id) answer.0;
          })
          answer.1
