-- ===== src/Chat/Tests.antt =====
-- Runs of the chat route, and its theorems at concrete inputs.
use cloud_mesh.Common.{
  IsIn, ℕ, suc, ◌+◌, ◌<◌, ap, inl, get_or, ◌≡◌, refl, String, true, false, Option, none, some, List,
  [], ◌∷◌,
}
use cloud_mesh.Common.KeyValue.{memory, blank}
use cloud_mesh.CircuitBreaker.{Circuit, returned, get_circuit_state}
use cloud_mesh.Billing.{
  enforce_budget, with_distributed_lock, lock_loop, set_nx, check_budget, get_budget_status,
  is_exhausted, is_nearly_spent, maybe_publish_budget_warning, release,
}
use cloud_mesh.Routing.{build_registry, resolve}
use cloud_mesh.Routing.Select.{cost_optimized, resolve_model_with_fallback}
use cloud_mesh.Chat.{
  Redis, ChatWorld, ChatRequest, UnifiedChatResponse, UnifiedChatChunk, stop, IdempotentRecord,
  CacheRow, DedupEntry,
}
use cloud_mesh.Chat.Dedup.{with_request_dedup}
use cloud_mesh.Chat.CacheTenancy.{IsSearch, lookup_cache-IsIn}
use cloud_mesh.Chat.Cache.{
  SemanticCacheLookupOptions, lookup_cache, store_cache, record_cache_outcome,
}
use cloud_mesh.Chat.Answer.{Caller, run_chat, serve, answer}
use cloud_mesh.Chat.Route.{is_constrained, effective_model_name, within_budget, past_replay, chat}
use cloud_mesh.Chat.Replay.{Gateway, chat_at, IsReplayed, chat_then_chat}

abbrev redis : Redis
redis = record {
  locks = memory String;
  replays = memory IdempotentRecord;
  dedups = memory DedupEntry;
  counts = memory ℕ;
  circuits = memory Circuit;
}

-- The outside counts the calls of providers.
abbrev World : Type 0
World = ChatWorld redis ℕ

abbrev fresh : World
fresh = record {
  idempotent = blank;
  tables = record { rows = []; outbox = [] };
  slots = blank;
  ledger = record { override = none; plan_budget = some 100; spent = 95; outbox = [] };
  serving = record { dedup = blank; cache = []; counters = blank; breakers = blank; outside = 0 };
}

abbrev hello : UnifiedChatResponse
hello = record {
  id = "chat-1";
  provider = "openai";
  model = "gpt-4o-mini";
  message = record { role = "assistant"; content = "hello" };
  finish_reason = stop;
  usage = record { prompt_tokens = 1000; completion_tokens = 500 };
}

abbrev delta : String → UnifiedChatChunk
delta text = record {
  id = "chat-2";
  provider = "openai";
  model = "gpt-4o-mini";
  delta = text;
  done = false;
  finish_reason = none;
  usage = none;
}

abbrev last : UnifiedChatChunk
last = record (delta "") {
  done = true;
  usage = some (record { prompt_tokens = 10; completion_tokens = 2 });
}

abbrev gateway : Gateway redis ℕ ℕ
gateway = record {
  api = record {
    call = λ resolved req s. (record s { outside = suc s.outside }, returned hello);
    wait = λ s. (s, none);
    prompt_hash = λ model messages. model;
    embed = λ messages. returned 7;
    nearest = λ v rows. none;
    similarity_threshold = 95;
    cache_ttl_days = 7;
    today = 100;
  };
  open_stream = λ resolved req s. (
    record s { outside = suc s.outside },
    returned (some (record { first = delta "hel"; rest = delta "lo" ∷ last ∷ []; broken = none })),
  );
  sleep = λ w. w;
  env = record {
    registry = build_registry false "gpt-4o";
    candidates = "gpt-4o" ∷ [];
    constrained_model = some "gpt-4o-mini";
    stats = λ name. record { sample_count = 0; p99_ms = 0; successes = 0 };
    period = "2026-07";
    token = "t1";
    parts = 10;
    draw = 3;
  };
  flags = record {
    semantic_cache = true;
    request_dedup = true;
    cache_ttl_days = none;
    billing_enforcement = true;
    routing_preset = cost_optimized;
    ab_config = none;
  };
}

abbrev caller : Caller
caller = record { org_id = "acme"; api_key_id = "key-1"; idempotency_key = some "retry-1" }

abbrev question : ChatRequest
question = record {
  model = "auto";
  messages = record { role = "user"; content = "hi" } ∷ [];
  stream = false;
}

-- Two requests without a key: the second is found in the cache and costs no call.
abbrev ask : World → World
ask w =
    let (w', reply) =
      chat_at redis ℕ ℕ (record caller { idempotency_key = none }) gateway question w in
    w'

one_call : (ask (ask fresh)).serving.outside ≡ 1
unfolding chat past_replay within_budget answer serve run_chat with_request_dedup lookup_cache
    store_cache record_cache_outcome enforce_budget with_distributed_lock lock_loop set_nx
    check_budget get_budget_status is_exhausted resolve_model_with_fallback effective_model_name
    is_constrained resolve build_registry get_circuit_state release maybe_publish_budget_warning
    is_nearly_spent
one_call = refl

chat_then_chat_example :
    IsReplayed redis ℕ ℕ caller (chat_at redis ℕ ℕ caller gateway question fresh)
chat_then_chat_example = chat_then_chat redis ℕ ℕ caller gateway question "retry-1" fresh refl

-- A search that answers with the first row.
abbrev first_row : ℕ → List CacheRow → Option (CacheRow × ℕ)
first_row v [] = none
first_row v (r ∷ rs) = some (r, 97)

first_row-IsSearch : IsSearch first_row
first_row-IsSearch v [] r d h = cc
first_row-IsSearch v (x ∷ xs) r d h =
    inl (ap (λ (o : Option (CacheRow × ℕ)). let q : CacheRow × ℕ = get_or o (x, 97) in q.0) h)

abbrev row : String → CacheRow
row org = record {
  org_id = org;
  model = "gpt-4o-mini";
  prompt_hash = "h1";
  response = hello;
  created_day = 100;
}

abbrev options : SemanticCacheLookupOptions
options = record { similarity_threshold = 95; ttl_days = 7 }

-- A similar prompt: the first row is that of another organization.
similar_found :
    lookup_cache first_row "acme" "gpt-4o-mini" "h2"
      (returned 7)
      options
      103
      (row "globex" ∷ row "acme" ∷ [])
    ≡ returned (some hello)
unfolding lookup_cache
similar_found = refl

lookup_cache-IsIn_example :
    (r : CacheRow) × IsIn r (row "globex" ∷ row "acme" ∷ [])
    × (r.response ≡ hello)
    × (r.org_id ≡ "acme")
    × (r.model ≡ "gpt-4o-mini")
    × (103 < r.created_day + 7)
lookup_cache-IsIn_example =
    lookup_cache-IsIn first_row "acme" "gpt-4o-mini" "h2" (returned 7) options 103
      (row "globex" ∷ row "acme" ∷ []) hello first_row-IsSearch similar_found
