-- ===== src/Chat.antt =====
-- apps/gateway/src/modules/chat/routes.ts: the chat route. The children follow it: Dedup and Cache
-- are lib/requestDedup.ts and lib/semanticCache.ts, Answer the part without a stream, Streaming the
-- part with one, Route the handler with its gates. A rethrown error is `other`.
pub mod Dedup
pub mod Cache
pub mod Answer
pub mod Streaming
pub mod Route
pub mod Hits
pub mod Contract
pub mod Replay
pub mod CacheTenancy
mod Tests
use cloud_mesh.Common.{ℕ, String, Bool, Option, List}
use cloud_mesh.Common.KeyValue.{KeyValue}
use cloud_mesh.CircuitBreaker.{Circuit}
use cloud_mesh.Billing.{Ledger}
use cloud_mesh.Billing.Pricing.{UnifiedUsage}
use cloud_mesh.Billing.Usage.{UsageTables}
use cloud_mesh.Routing.Select.{RoutingPresetName, AbConfig}

pub data FinishReason : Type 0 where
  stop length content_filter error : FinishReason

pub record UnifiedMessage : Type 0 where
  pub role : String
  pub content : String

pub record UnifiedChatResponse : Type 0 where
  pub id : String
  pub provider : String
  pub model : String
  pub message : UnifiedMessage
  pub finish_reason : FinishReason
  pub usage : UnifiedUsage

pub record IdempotentRecord : Type 0 where
  pub status_code : ℕ
  pub body : UnifiedChatResponse

pub record OrgFeatureFlags : Type 0 where
  pub semantic_cache : Bool
  pub request_dedup : Bool
  pub cache_ttl_days : Option ℕ
  pub billing_enforcement : Bool
  pub routing_preset : RoutingPresetName
  pub ab_config : Option AbConfig

pub record ChatRequest : Type 0 where
  pub model : String
  pub messages : List UnifiedMessage
  pub stream : Bool

pub record UnifiedChatChunk : Type 0 where
  pub id : String
  pub provider : String
  pub model : String
  pub delta : String
  pub done : Bool
  pub finish_reason : Option FinishReason
  pub usage : Option UnifiedUsage

-- What goes over the wire of an event stream: a chunk, an error, the end mark.
pub data Frame : Type 0 where
  chunk_frame : UnifiedChatChunk → Frame
  error_frame : String → Frame
  end_frame : Frame

-- What a call of a provider throws: a `ProviderError` with its message and provider, a
-- `ServiceUnavailableError`, or anything else.
pub data CallFailure : Type 0 where
  provider_error : String → String → CallFailure
  service_unavailable : String → CallFailure
  other : String → CallFailure

pub data DedupEntry : Type 0 where
  processing : DedupEntry
  result : UnifiedChatResponse → DedupEntry

-- Redis, by what the route keeps under which keys.
pub record Redis : Type 1 where
  pub locks : KeyValue String
  pub replays : KeyValue IdempotentRecord
  pub dedups : KeyValue DedupEntry
  pub counts : KeyValue ℕ
  pub circuits : KeyValue Circuit

pub record CacheRow : Type 0 where
  pub org_id : String
  pub model : String
  pub prompt_hash : String
  pub response : UnifiedChatResponse
  pub created_day : ℕ

module _ (redis : Redis) (W : Type 0) where
  -- What serves a request: `outside` is all that calls of providers change but the circuits.
  pub record Serving : Type 0 where
    pub dedup : redis.dedups.Store
    pub cache : List CacheRow
    pub counters : redis.counts.Store
    pub breakers : redis.circuits.Store
    pub outside : W

  pub record ChatWorld : Type 0 where
    pub idempotent : redis.replays.Store
    pub tables : UsageTables
    pub slots : redis.locks.Store
    pub ledger : Ledger
    pub serving : Serving
