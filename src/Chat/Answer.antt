-- ===== src/Chat/Answer.antt =====
-- The chat route without a stream: the cache, the shared call and the provider, then the bill, the
-- idempotent result and the reply.
use Prim.Native.String.{◌++◌ as ◌+++◌}
use cloud_mesh.Common.{
  ℕ, String, Bool, true, false, Option, none, some, List, [], ◌∷◌, ◌++◌, get_or, if◌then◌else◌,
}
use cloud_mesh.CircuitBreaker.{Outcome, returned, threw}
use cloud_mesh.Billing.{BudgetStatus, set_nx}
use cloud_mesh.Billing.Usage.{RecordUsageParams, provider_degraded, record_usage_and_outbox}
use cloud_mesh.Routing.{ResolvedModel}
use cloud_mesh.Routing.Select.{RouteError}
use cloud_mesh.Chat.{
  Redis, Serving, ChatWorld, ChatRequest, OrgFeatureFlags, UnifiedMessage, UnifiedChatResponse,
  IdempotentRecord, Frame, CallFailure, provider_error, service_unavailable, other,
}
use cloud_mesh.Chat
use cloud_mesh.Chat.Dedup.{Served, with_request_dedup}
use cloud_mesh.Chat.Cache.{lookup_cache, store_cache, record_cache_outcome}

-- Who asks, and the `Idempotency-Key` header.
pub record Caller : Type 0 where
  pub org_id : String
  pub api_key_id : String
  pub idempotency_key : Option String

pub data FailureBody : Type 0 where
  provider_failure : String → String → FailureBody
  unavailable : String → FailureBody
  empty_stream : FailureBody

-- An error before anything was answered, which the error handler of the application takes.
pub data Refusal : Type 0 where
  budget_exceeded : BudgetStatus → Refusal
  lock_busy : String → Refusal
  no_route : RouteError → Refusal

pub data ChatReply : Type 0 where
  replayed : IdempotentRecord → ChatReply
  refused : Refusal → ChatReply
  answered : UnifiedChatResponse → ChatReply
  streamed : List Frame → ChatReply
  failed : ℕ → FailureBody → ChatReply
  rethrown : String → ChatReply

abbrev pub code_of : CallFailure → String
code_of (provider_error message provider) = "PROVIDER_ERROR"
code_of (service_unavailable message) = "SERVICE_UNAVAILABLE"
code_of (other message) = message

module _ (redis : Redis) (W : Type 0) where
  abbrev pub replay_key : String → String → String
  replay_key org key = "idempotency:" +++ (org +++ (":" +++ key))

  abbrev pub get_idempotent_replay : String → String → ChatWorld redis W → Option IdempotentRecord
  get_idempotent_replay org key w = redis.replays.get w.idempotent (replay_key org key)

  -- lib/platformEvents.ts: at most one event while the slot is taken.
  unfoldable pub emit_provider_degraded :
      String → String → String → ChatWorld redis W → ChatWorld redis W
  emit_provider_degraded org provider reason w =
      let key = "events:degraded:" +++ (org +++ (":" +++ provider)) in
      let (slots, claimed) = set_nx redis.locks key "1" w.slots in
      let t = w.tables in
      let outbox =
        if claimed then t.outbox ++ provider_degraded org provider reason ∷ [] else t.outbox in
      record w { slots = slots; tables = record t { outbox = outbox } }

  abbrev pub stored_under :
      String → Option String → UnifiedChatResponse → redis.replays.Store → redis.replays.Store
  stored_under org none x s = s
  stored_under org (some key) x s =
      redis.replays.put s (replay_key org key) (record { status_code = 200; body = x })

  -- `storeIdempotentResult`, if the request has a key.
  abbrev pub stored_for : Caller → UnifiedChatResponse → ChatWorld redis W → ChatWorld redis W
  stored_for caller x w = record w {
    idempotent = stored_under caller.org_id caller.idempotency_key x w.idempotent;
  }

  abbrev pub billing_of : Caller → String → UnifiedChatResponse → RecordUsageParams
  billing_of caller model x = record {
    org_id = caller.org_id;
    api_key_id = caller.api_key_id;
    model = model;
    usage = x.usage;
    request_id = x.id;
  }

  abbrev pub recorded_for : RecordUsageParams → ChatWorld redis W → ChatWorld redis W
  recorded_for p w = record w { tables = (record_usage_and_outbox p w.tables).0 }

  module _ (Vector : Type 0) where
    -- What the route is given: the call of a provider through its circuit and retries, the wait for a
    -- leader, the hash and the embedding of a prompt, and the search for the nearest row.
    pub record Services : Type 0 where
      pub call : ResolvedModel → ChatRequest → Serving redis W → Served redis W
      pub wait : Serving redis W → Serving redis W × Option UnifiedChatResponse
      pub prompt_hash : String → List UnifiedMessage → String
      pub embed : List UnifiedMessage → Outcome CallFailure Vector
      pub nearest : Vector → List Chat.CacheRow → Option (Chat.CacheRow × ℕ)
      pub similarity_threshold : ℕ
      pub cache_ttl_days : ℕ
      pub today : ℕ

    module _ (api : Services) (flags : OrgFeatureFlags) (caller : Caller) (resolved : ResolvedModel)
        (req : ChatRequest) where
      abbrev hash : String
      hash = api.prompt_hash resolved.provider_model req.messages

      unfoldable pub run_chat : Serving redis W → Served redis W
      run_chat s =
          if flags.request_dedup
          then with_request_dedup redis W (caller.org_id +++ (":" +++ hash)) (api.call resolved req)
              api.wait s
          else api.call resolved req s

      abbrev pub Answer : Type 0
      Answer = Serving redis W × Outcome CallFailure (UnifiedChatResponse × Bool)

      abbrev pub counted : String → Serving redis W → Serving redis W
      counted outcome s = record s {
        counters = record_cache_outcome redis.counts caller.org_id outcome s.counters;
      }

      abbrev pub cached_after : Served redis W → Answer
      cached_after (s, returned x) = (
        record s {
          cache = store_cache caller.org_id resolved.provider_model hash x api.today s.cache;
        },
        returned (x, false),
      )
      cached_after (s, threw e) = (s, threw e)

      abbrev pub uncached : Served redis W → Answer
      uncached (s, returned x) = (s, returned (x, false))
      uncached (s, threw e) = (s, threw e)

      abbrev pub by_lookup :
          Outcome CallFailure (Option UnifiedChatResponse) → Serving redis W → Answer
      by_lookup (threw e) s = (s, threw e)
      by_lookup (returned (some x)) s = (counted "hit" s, returned (x, true))
      by_lookup (returned none) s = cached_after (run_chat (counted "miss" s))

      -- The response, and whether it comes from the cache.
      unfoldable pub serve : Serving redis W → Answer
      unfolding run_chat
      serve s =
          if flags.semantic_cache
          then by_lookup
              (lookup_cache api.nearest caller.org_id resolved.provider_model hash
                (api.embed req.messages)
                (record {
                  similarity_threshold = api.similarity_threshold;
                  ttl_days = get_or flags.cache_ttl_days api.cache_ttl_days;
                })
                api.today s.cache)
              s
          else uncached (run_chat s)

      abbrev pub degraded : CallFailure → ChatWorld redis W → ChatWorld redis W
      degraded e w = emit_provider_degraded caller.org_id resolved.provider_model (code_of e) w

      -- Only a response that cost a call is billed.
      abbrev pub finish :
          Outcome CallFailure (UnifiedChatResponse × Bool)
          → ChatWorld redis W
          → ChatWorld redis W × ChatReply
      finish (returned (x, true)) w = (stored_for caller x w, answered x)
      finish (returned (x, false)) w = (
        stored_for caller x (recorded_for (billing_of caller resolved.provider_model x) w),
        answered x,
      )
      finish (threw (provider_error message provider)) w = (
        degraded (provider_error message provider) w,
        failed 502 (provider_failure message provider),
      )
      finish (threw (service_unavailable message)) w =
          (degraded (service_unavailable message) w, failed 503 (unavailable message))
      finish (threw (other message)) w = (w, rethrown message)

      unfoldable pub answer : ChatWorld redis W → ChatWorld redis W × ChatReply
      unfolding serve emit_provider_degraded
      answer w = let (s, outcome) = serve w.serving in finish outcome (record w { serving = s })
