-- ===== src/Providers/Anthropic.antt =====
-- apps/gateway/src/providers/anthropic.ts.
use Prim.Native.String.{◌++◌ as ◌+++◌}
use cloud_mesh.Common.{
  ℕ, String, Bool, true, false, Option, none, some, List, [], ◌∷◌, map, filter, str_eq, get_or,
  if◌then◌else◌,
}
use cloud_mesh.Common.KeyValue.{KeyValue}
use cloud_mesh.CircuitBreaker.{Outcome, returned, threw}
use cloud_mesh.Stream.{Text, parse_sse_lines}
use cloud_mesh.Chat.{
  FinishReason, stop, length, UnifiedMessage, UnifiedChatResponse, UnifiedChatChunk, CallFailure,
  provider_error,
}
use cloud_mesh.Providers.{
  UnifiedChatRequest, ModelInfo, FetchReply, with_json, no_json, from_reply, from_body,
  after_fetched, is_success, failed_with, Streamed, and_then, stream_of, cached_models,
}
use cloud_mesh.Providers.OpenAi.{has_key_set}
use cloud_mesh.Providers.Prompts.{split_system_prompt}

abbrev pub default_max_tokens : ℕ
default_max_tokens = 1024

abbrev pub anthropic_finish_reason : Option String → FinishReason
anthropic_finish_reason none = stop
anthropic_finish_reason (some reason) = if str_eq reason "max_tokens" then length else stop

abbrev pub anthropic_name : String
anthropic_name = "anthropic"

pub record AnthropicRequest : Type 0 where
  pub model : String
  pub system : Option String
  pub messages : List UnifiedMessage
  pub max_tokens : ℕ
  pub temperature : Option ℕ
  pub stream : Bool

unfoldable pub anthropic_request : Bool → UnifiedChatRequest → AnthropicRequest
unfolding split_system_prompt
anthropic_request stream req =
    let (system, rest) = split_system_prompt req.messages in
    record {
      model = req.model;
      system = system;
      messages = rest;
      max_tokens = get_or req.max_tokens default_max_tokens;
      temperature = req.temperature;
      stream = stream;
    }

pub record ContentBlock : Type 0 where
  pub block_type : String
  pub text : Option String

pub record AnthropicMessage : Type 0 where
  pub id : String
  pub content : List ContentBlock
  pub stop_reason : Option String
  pub input_tokens : ℕ
  pub output_tokens : ℕ

-- `join("")`.
abbrev pub join_text : List String → String
join_text [] = ""
join_text (s ∷ ss) = s +++ join_text ss

abbrev pub anthropic_response : String → AnthropicMessage → UnifiedChatResponse
anthropic_response model body = record {
  id = body.id;
  provider = anthropic_name;
  model = model;
  message = record {
    role = "assistant";
    content =
        join_text
          (map (λ b. get_or b.text "") (filter (λ b. str_eq b.block_type "text") body.content));
  };
  finish_reason = anthropic_finish_reason body.stop_reason;
  usage = record { prompt_tokens = body.input_tokens; completion_tokens = body.output_tokens };
}

-- An event of the stream: its `type`, the `id` and the input tokens of its `message`, the `type`, the
-- `text` and the `stop_reason` of its `delta`, and the output tokens of its `usage`.
pub record AnthropicEvent : Type 0 where
  pub event_type : String
  pub message : Option (String × ℕ)
  pub delta_type : Option String
  pub text : Option String
  pub stop_reason : Option String
  pub output_tokens : Option ℕ

pub record AnthropicState : Type 0 where
  pub id : String
  pub prompt_tokens : ℕ
  pub completion_tokens : ℕ
  pub stop_reason : Option String

abbrev pub anthropic_start : AnthropicState
anthropic_start = record { id = ""; prompt_tokens = 0; completion_tokens = 0; stop_reason = none }

-- What the loop does with an event: it goes on, with what it yields, or it returns.
pub data Turn : Type 0 where
  goes_on : AnthropicState → List UnifiedChatChunk → Turn
  returns : UnifiedChatChunk → Turn

abbrev pub or_else {ℓ} : {A : Type ℓ} → Option A → Option A → Option A
or_else none old = old
or_else (some new) old = some new

abbrev pub started : Option (String × ℕ) → AnthropicState → AnthropicState
started none st = record st { prompt_tokens = 0 }
started (some (id, tokens)) st = record st { id = id; prompt_tokens = tokens }

abbrev pub delta_chunk : String → AnthropicState → String → UnifiedChatChunk
delta_chunk model st text = record {
  id = st.id;
  provider = anthropic_name;
  model = model;
  delta = text;
  done = false;
  finish_reason = none;
  usage = none;
}

abbrev pub is_text_delta : Option String → Bool
is_text_delta none = false
is_text_delta (some t) = str_eq t "text_delta"

abbrev pub text_chunks : String → AnthropicState → Bool → Option String → List UnifiedChatChunk
text_chunks model st false text = []
text_chunks model st true none = []
text_chunks model st true (some text) =
    if str_eq text "" then [] else delta_chunk model st text ∷ []

abbrev pub final_chunk : String → AnthropicState → UnifiedChatChunk
final_chunk model st = record {
  id = st.id;
  provider = anthropic_name;
  model = model;
  delta = "";
  done = true;
  finish_reason = some (anthropic_finish_reason st.stop_reason);
  usage =
      some (record { prompt_tokens = st.prompt_tokens; completion_tokens = st.completion_tokens });
}

-- The `switch`.
abbrev pub on_event : String → AnthropicState → AnthropicEvent → Turn
on_event model st e =
    if str_eq e.event_type "message_start"
    then goes_on (started e.message st) []
    else if str_eq e.event_type "content_block_delta"
    then goes_on st (text_chunks model st (is_text_delta e.delta_type) e.text)
    else if str_eq e.event_type "message_delta"
    then goes_on
        (record st {
          stop_reason = or_else e.stop_reason st.stop_reason;
          completion_tokens = get_or e.output_tokens st.completion_tokens;
        })
        []
    else if str_eq e.event_type "message_stop"
    then returns (final_chunk model st)
    else goes_on st []

abbrev pub after_turn : (AnthropicState → Streamed) → Turn → Streamed
after_turn rest (goes_on st out) = and_then out (rest st)
after_turn rest (returns last) = (last ∷ [], none)

-- `decode` is `JSON.parse` of a payload.
module _ (decode : Text → Option AnthropicEvent) where
  abbrev pub on_payload :
      String → AnthropicState → (AnthropicState → Streamed) → Option AnthropicEvent → Streamed
  on_payload model st rest none = ([], some no_json)
  on_payload model st rest (some e) = after_turn rest (on_event model st e)

  unfoldable pub anthropic_chunks : String → AnthropicState → List Text → Streamed
  anthropic_chunks model st [] = ([], none)
  anthropic_chunks model st (p ∷ ps) =
      on_payload model st (λ st. anthropic_chunks model st ps) (decode p)

  module _ (show : ℕ → String) (api_key : Option String)
      (fetch : AnthropicRequest → Outcome CallFailure (FetchReply AnthropicMessage))
      (fetch_stream : AnthropicRequest → Outcome CallFailure (FetchReply (List Text))) where
    abbrev pub anthropic_authorized : {A : Type 0} → Outcome CallFailure A → Outcome CallFailure A
    anthropic_authorized reply =
        if has_key_set api_key
        then reply
        else threw (
            provider_error "Anthropic is not configured (missing ANTHROPIC_API_KEY)" anthropic_name)

    unfoldable pub anthropic_chat : UnifiedChatRequest → Outcome CallFailure UnifiedChatResponse
    unfolding anthropic_request
    anthropic_chat req = anthropic_authorized (
        from_reply show anthropic_name "Anthropic request failed: "
          (λ r. with_json r.body (λ body. returned (anthropic_response req.model body)))
          (fetch (anthropic_request false req)))

    unfoldable pub anthropic_chat_stream : UnifiedChatRequest → Streamed
    unfolding anthropic_chunks anthropic_request
    anthropic_chat_stream req = stream_of (
        anthropic_authorized (
          from_reply show anthropic_name "Anthropic request failed: "
            (from_body show anthropic_name "Anthropic request failed: "
              (λ texts. anthropic_chunks req.model anthropic_start (parse_sse_lines texts)))
            (fetch_stream (anthropic_request true req))))

module _ (redis : KeyValue (List ModelInfo)) (show : ℕ → String) (api_key : Option String)
    (fetch_list : Outcome CallFailure (FetchReply (List String))) where
  open redis use {Store}

  abbrev pub anthropic_listed : FetchReply (List String) → Outcome CallFailure (List ModelInfo)
  anthropic_listed r =
      if is_success r.status
      then with_json r.body
          (λ ids. returned (map (λ id. record { id = id; provider = anthropic_name }) ids))
      else threw (failed_with show anthropic_name "Anthropic models list failed: " r.status "")

  unfoldable pub anthropic_models : Store → Store × Outcome CallFailure (List ModelInfo)
  unfolding cached_models
  anthropic_models s =
      if has_key_set api_key
      then cached_models redis anthropic_name (after_fetched anthropic_listed fetch_list) s
      else (s, returned [])
