-- ===== src/Providers/Ollama.antt =====
-- apps/gateway/src/providers/ollama.ts.
use Prim.Native.String.{◌++◌ as ◌+++◌}
use cloud_mesh.Common.{
  ℕ, String, Bool, true, false, Option, none, some, List, [], ◌∷◌, map, get_or, if◌then◌else◌,
}
use cloud_mesh.Common.KeyValue.{KeyValue}
use cloud_mesh.CircuitBreaker.{Outcome, returned, threw}
use cloud_mesh.Billing.Pricing.{UnifiedUsage}
use cloud_mesh.Stream.{Text, parse_ndjson_lines}
use cloud_mesh.Chat.{
  stop, UnifiedMessage, UnifiedChatResponse, UnifiedChatChunk, CallFailure, provider_error,
}
use cloud_mesh.Providers.{
  UnifiedChatRequest, ModelInfo, FetchReply, with_json, no_json, from_reply, from_body,
  after_fetched, is_success, failed_with, Streamed, and_then, stream_of, cached_models,
}

abbrev pub ollama_name : String
ollama_name = "ollama"

pub record OllamaRequest : Type 0 where
  pub model : String
  pub messages : List UnifiedMessage
  pub stream : Bool
  pub temperature : Option ℕ
  pub num_predict : Option ℕ

pub record OllamaChatResponse : Type 0 where
  pub content : String
  pub done : Bool
  pub prompt_eval_count : Option ℕ
  pub eval_count : Option ℕ

abbrev pub ollama_request : Bool → UnifiedChatRequest → OllamaRequest
ollama_request stream req = record {
  model = req.model;
  messages = req.messages;
  stream = stream;
  temperature = req.temperature;
  num_predict = req.max_tokens;
}

abbrev pub ollama_usage : OllamaChatResponse → UnifiedUsage
ollama_usage body = record {
  prompt_tokens = get_or body.prompt_eval_count 0;
  completion_tokens = get_or body.eval_count 0;
}

abbrev pub ollama_response : String → String → OllamaChatResponse → UnifiedChatResponse
ollama_response id model body = record {
  id = id;
  provider = ollama_name;
  model = model;
  message = record { role = "assistant"; content = body.content };
  finish_reason = stop;
  usage = ollama_usage body;
}

abbrev pub ollama_chunk : String → String → OllamaChatResponse → UnifiedChatChunk
ollama_chunk id model chunk = record {
  id = id;
  provider = ollama_name;
  model = model;
  delta = chunk.content;
  done = chunk.done;
  finish_reason = if chunk.done then some stop else none;
  usage = if chunk.done then some (ollama_usage chunk) else none;
}

abbrev pub unreachable : String → String → CallFailure
unreachable base_url message =
    provider_error
      ("Could not reach Ollama at "
        +++ (base_url +++ (" — is it running? (" +++ (message +++ ")"))))
      ollama_name

-- What `fetch` throws, by its message, is an error of the provider.
abbrev pub call_ollama :
    {B : Type 0} → String → Outcome String (FetchReply B) → Outcome CallFailure (FetchReply B)
call_ollama base_url (threw message) = threw (unreachable base_url message)
call_ollama base_url (returned r) = returned r

-- `decode` is `JSON.parse` of a line.
module _ (decode : Text → Option OllamaChatResponse) where
  abbrev pub ollama_step : String → String → Option OllamaChatResponse → Streamed → Streamed
  ollama_step id model none rest = ([], some no_json)
  ollama_step id model (some chunk) rest = and_then (ollama_chunk id model chunk ∷ []) rest

  unfoldable pub ollama_chunks : String → String → List Text → Streamed
  ollama_chunks id model [] = ([], none)
  ollama_chunks id model (p ∷ ps) = ollama_step id model (decode p) (ollama_chunks id model ps)

  module _ (show : ℕ → String) (base_url : String)
      (fetch : OllamaRequest → Outcome String (FetchReply OllamaChatResponse))
      (fetch_stream : OllamaRequest → Outcome String (FetchReply (List Text))) where
    unfoldable pub ollama_chat :
        String → UnifiedChatRequest → Outcome CallFailure UnifiedChatResponse
    ollama_chat id req =
        from_reply show ollama_name "Ollama request failed: "
          (λ r. with_json r.body (λ body. returned (ollama_response id req.model body)))
          (call_ollama base_url (fetch (ollama_request false req)))

    unfoldable pub ollama_chat_stream : String → UnifiedChatRequest → Streamed
    unfolding ollama_chunks
    ollama_chat_stream id req = stream_of (
        from_reply show ollama_name "Ollama request failed: "
          (from_body show ollama_name "Ollama request failed: "
            (λ lines. ollama_chunks id req.model (parse_ndjson_lines lines)))
          (call_ollama base_url (fetch_stream (ollama_request true req))))

module _ (redis : KeyValue (List ModelInfo)) (show : ℕ → String) (base_url : String)
    (fetch_list : Outcome String (FetchReply (List String))) where
  open redis use {Store}

  abbrev pub ollama_listed : FetchReply (List String) → Outcome CallFailure (List ModelInfo)
  ollama_listed r =
      if is_success r.status
      then with_json r.body
          (λ names. returned (map (λ name. record { id = name; provider = ollama_name }) names))
      else threw (failed_with show ollama_name "Ollama tags request failed: " r.status "")

  unfoldable pub ollama_models : Store → Store × Outcome CallFailure (List ModelInfo)
  unfolding cached_models
  ollama_models s =
      cached_models redis ollama_name
        (after_fetched ollama_listed (call_ollama base_url fetch_list)) s
