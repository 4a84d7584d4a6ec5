-- ===== src/Providers/OpenAi.antt =====
-- apps/gateway/src/providers/openai.ts.
use cloud_mesh.Common.{
  ℕ, String, Bool, true, false, not, Option, none, some, is_some, List, [], ◌∷◌, any, filter, map,
  str_eq, get_or, if◌then◌else◌,
}
use cloud_mesh.Common.KeyValue.{KeyValue}
use cloud_mesh.CircuitBreaker.{Outcome, returned, threw}
use cloud_mesh.Billing.Pricing.{UnifiedUsage}
use cloud_mesh.Stream.{Text, codes, strip, parse_sse_lines}
use cloud_mesh.Chat.{
  FinishReason, stop, length, content_filter, UnifiedMessage, UnifiedChatResponse, UnifiedChatChunk,
  CallFailure, provider_error,
}
use cloud_mesh.Providers.{
  UnifiedChatRequest, ModelInfo, FetchReply, with_json, no_json, from_reply, is_success,
  failed_with, Streamed, and_then, stream_of, from_body, after_fetched, cached_models,
}

abbrev pub openai_finish_reason : Option String → FinishReason
openai_finish_reason none = stop
openai_finish_reason (some reason) =
    if str_eq reason "length"
    then length
    else if str_eq reason "content_filter"
    then content_filter
    else stop

abbrev pub non_chat_substrings : List String
non_chat_substrings =
    "embedding" ∷ "whisper" ∷ "tts" ∷ "dall-e" ∷ "moderation" ∷ "davinci" ∷ "babbage" ∷ "curie"
    ∷ "ada" ∷ []

-- `lower` is `toLowerCase`, and `includes` the test for a part of a text.
abbrev pub looks_like_chat_model : (String → String) → (String → String → Bool) → String → Bool
looks_like_chat_model lower includes id = not (any (λ s. includes (lower id) s) non_chat_substrings)

pub record OpenAiRequest : Type 0 where
  pub model : String
  pub messages : List UnifiedMessage
  pub max_tokens : Option ℕ
  pub temperature : Option ℕ
  pub stream : Bool

-- A choice of a completion, with its message, or of a chunk, with its delta.
pub record OpenAiChoice : Type 0 where
  pub content : Option String
  pub finish_reason : Option String

pub record OpenAiCompletion : Type 0 where
  pub id : Option String
  pub choices : List OpenAiChoice
  pub usage : Option UnifiedUsage

abbrev pub openai_request : Bool → UnifiedChatRequest → OpenAiRequest
openai_request stream req = record {
  model = req.model;
  messages = req.messages;
  max_tokens = req.max_tokens;
  temperature = req.temperature;
  stream = stream;
}

abbrev pub zero_usage : UnifiedUsage
zero_usage = record { prompt_tokens = 0; completion_tokens = 0 }

abbrev pub openai_name : String
openai_name = "openai"

-- `headers()`, before anything is sent.
abbrev pub openai_authorized :
    {A : Type 0} → Option String → Outcome CallFailure A → Outcome CallFailure A
openai_authorized none reply =
    threw (provider_error "OpenAI is not configured (missing OPENAI_API_KEY)" openai_name)
openai_authorized (some key) reply =
    if str_eq key ""
    then threw (provider_error "OpenAI is not configured (missing OPENAI_API_KEY)" openai_name)
    else reply

abbrev pub openai_response :
    String → OpenAiCompletion → List OpenAiChoice → Outcome CallFailure UnifiedChatResponse
openai_response model body [] = threw (provider_error "OpenAI response had no choices" openai_name)
openai_response model body (choice ∷ more) = returned (record {
  id = get_or body.id "";
  provider = openai_name;
  model = model;
  message = record { role = "assistant"; content = get_or choice.content "" };
  finish_reason = openai_finish_reason choice.finish_reason;
  usage = get_or body.usage zero_usage;
})

abbrev pub openai_chunk : String → String → OpenAiCompletion → OpenAiChoice → UnifiedChatChunk
openai_chunk id model chunk choice = record {
  id = get_or chunk.id id;
  provider = openai_name;
  model = model;
  delta = get_or choice.content "";
  done = is_some choice.finish_reason;
  finish_reason =
      if is_some choice.finish_reason
      then some (openai_finish_reason choice.finish_reason)
      else none;
  usage = chunk.usage;
}

-- What is yielded for a chunk: nothing, if it has no choice.
abbrev pub openai_yielded :
    String → String → OpenAiCompletion → List OpenAiChoice → List UnifiedChatChunk
openai_yielded id model chunk [] = []
openai_yielded id model chunk (choice ∷ more) = openai_chunk id model chunk choice ∷ []

abbrev pub is_done_mark : Option Text → Bool
is_done_mark (some []) = true
is_done_mark _ = false

abbrev pub has_key_set : Option String → Bool
has_key_set none = false
has_key_set (some key) = not (str_eq key "")

-- The list of models, of which `fetch_list` answers the ids.
module _ (redis : KeyValue (List ModelInfo)) (show : ℕ → String) (api_key : Option String)
    (lower : String → String) (includes : String → String → Bool)
    (fetch_list : Outcome CallFailure (FetchReply (List String))) where
  open redis use {Store}

  abbrev pub openai_listed : FetchReply (List String) → Outcome CallFailure (List ModelInfo)
  openai_listed r =
      if is_success r.status
      then with_json r.body (λ ids. returned (
          map (λ id. record { id = id; provider = openai_name })
            (filter (looks_like_chat_model lower includes) ids)))
      else threw (failed_with show openai_name "OpenAI models list failed: " r.status "")

  unfoldable pub openai_models : Store → Store × Outcome CallFailure (List ModelInfo)
  unfolding cached_models
  openai_models s =
      if has_key_set api_key
      then cached_models redis openai_name (after_fetched openai_listed fetch_list) s
      else (s, returned [])

-- `decode` is `JSON.parse` of a payload.
module _ (decode : Text → Option OpenAiCompletion) where
  abbrev pub openai_step : String → String → Option OpenAiCompletion → Streamed → Streamed
  openai_step id model none rest = ([], some no_json)
  openai_step id model (some chunk) rest =
      and_then (openai_yielded id model chunk chunk.choices) rest

  unfoldable pub openai_chunks : String → String → List Text → Streamed
  openai_chunks id model [] = ([], none)
  openai_chunks id model (p ∷ ps) =
      let rest = openai_chunks id model ps in
      if is_done_mark (strip (codes "[DONE]") p)
      then ([], none)
      else openai_step id model (decode p) rest

  module _ (show : ℕ → String) (api_key : Option String)
      (fetch : OpenAiRequest → Outcome CallFailure (FetchReply OpenAiCompletion))
      (fetch_stream : OpenAiRequest → Outcome CallFailure (FetchReply (List Text))) where
    unfoldable pub openai_chat : UnifiedChatRequest → Outcome CallFailure UnifiedChatResponse
    openai_chat req = openai_authorized api_key (
        from_reply show openai_name "OpenAI request failed: "
          (λ r. with_json r.body (λ body. openai_response req.model body body.choices))
          (fetch (openai_request false req)))

    -- The body of a streamed reply is the texts of its chunks; `id` is `randomUUID()`.
    unfoldable pub openai_chat_stream : String → UnifiedChatRequest → Streamed
    unfolding openai_chunks
    openai_chat_stream id req = stream_of (
        openai_authorized api_key (
          from_reply show openai_name "OpenAI request failed: "
            (from_body show openai_name "OpenAI request failed: "
              (λ texts. openai_chunks id req.model (parse_sse_lines texts)))
            (fetch_stream (openai_request true req))))
