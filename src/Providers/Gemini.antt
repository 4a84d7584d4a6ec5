-- ===== src/Providers/Gemini.antt =====
-- apps/gateway/src/providers/gemini.ts.
use cloud_mesh.Common.{
  ℕ, String, Bool, true, false, Option, none, some, List, [], ◌∷◌, map, filter, any, str_eq, get_or,
  if◌then◌else◌,
}
use cloud_mesh.Common.KeyValue.{KeyValue}
use cloud_mesh.CircuitBreaker.{Outcome, returned, threw}
use cloud_mesh.Billing.Pricing.{UnifiedUsage}
use cloud_mesh.Stream.{Text, parse_sse_lines}
use cloud_mesh.Chat.{
  FinishReason, stop, length, content_filter, UnifiedMessage, UnifiedChatResponse, UnifiedChatChunk,
  CallFailure, provider_error,
}
use cloud_mesh.Providers.{
  UnifiedChatRequest, ModelInfo, FetchReply, with_json, no_json, from_reply, from_body,
  after_fetched, is_success, failed_with, Streamed, and_then, stream_of, cached_models,
}
use cloud_mesh.Providers.OpenAi.{has_key_set, zero_usage}
use cloud_mesh.Providers.Anthropic.{join_text}
use cloud_mesh.Providers.Prompts.{is_system, join_lines}

abbrev pub gemini_finish_reason : Option String → FinishReason
gemini_finish_reason none = stop
gemini_finish_reason (some reason) =
    if str_eq reason "MAX_TOKENS"
    then length
    else if str_eq reason "SAFETY"
    then content_filter
    else if str_eq reason "RECITATION"
    then content_filter
    else stop

abbrev pub gemini_name : String
gemini_name = "gemini"

-- An entry of `contents`, with the text of its one part.
pub record GeminiContent : Type 0 where
  pub role : String
  pub text : String

pub record GeminiRequest : Type 0 where
  pub contents : List GeminiContent
  pub system_instruction : Option String
  pub max_output_tokens : Option ℕ
  pub temperature : Option ℕ

abbrev pub gemini_content : UnifiedMessage → GeminiContent
gemini_content m = record {
  role = if str_eq m.role "assistant" then "model" else "user";
  text = m.content;
}

abbrev pub add_to_payload :
    UnifiedMessage → List String × List GeminiContent → List String × List GeminiContent
add_to_payload m (parts, contents) =
    if is_system m then (m.content ∷ parts, contents) else (parts, gemini_content m ∷ contents)

unfoldable pub gemini_parts : List UnifiedMessage → List String × List GeminiContent
gemini_parts [] = ([], [])
gemini_parts (m ∷ ms) = add_to_payload m (gemini_parts ms)

abbrev pub instruction_of : List String → Option String
instruction_of [] = none
instruction_of (s ∷ ss) = some (join_lines (s ∷ ss))

unfoldable pub to_gemini_payload : List UnifiedMessage → List GeminiContent × Option String
unfolding gemini_parts
to_gemini_payload ms = let (parts, contents) = gemini_parts ms in (contents, instruction_of parts)

unfoldable pub gemini_request : UnifiedChatRequest → GeminiRequest
unfolding to_gemini_payload
gemini_request req =
    let (contents, instruction) = to_gemini_payload req.messages in
    record {
      contents = contents;
      system_instruction = instruction;
      max_output_tokens = req.max_tokens;
      temperature = req.temperature;
    }

pub record GeminiCandidate : Type 0 where
  pub parts : List (Option String)
  pub finish_reason : Option String

pub record GeminiResponse : Type 0 where
  pub candidates : List GeminiCandidate
  pub usage_metadata : Option UnifiedUsage

abbrev pub candidate_text : GeminiCandidate → String
candidate_text c = join_text (map (λ p. get_or p "") c.parts)

abbrev pub gemini_response :
    String
    → String
    → GeminiResponse
    → List GeminiCandidate
    → Outcome CallFailure UnifiedChatResponse
gemini_response id model body [] =
    threw (provider_error "Gemini response had no candidates" gemini_name)
gemini_response id model body (c ∷ more) = returned (record {
  id = id;
  provider = gemini_name;
  model = model;
  message = record { role = "assistant"; content = candidate_text c };
  finish_reason = gemini_finish_reason c.finish_reason;
  usage = get_or body.usage_metadata zero_usage;
})

-- `Boolean(finishReason)`, which is false for an empty text.
abbrev pub is_final : Option String → Bool
is_final none = false
is_final (some reason) = if str_eq reason "" then false else true

abbrev pub gemini_chunk : String → String → GeminiResponse → GeminiCandidate → UnifiedChatChunk
gemini_chunk id model chunk c = record {
  id = id;
  provider = gemini_name;
  model = model;
  delta = candidate_text c;
  done = is_final c.finish_reason;
  finish_reason =
      if is_final c.finish_reason then some (gemini_finish_reason c.finish_reason) else none;
  usage = if is_final c.finish_reason then some (get_or chunk.usage_metadata zero_usage) else none;
}

abbrev pub gemini_yielded :
    String → String → GeminiResponse → List GeminiCandidate → List UnifiedChatChunk
gemini_yielded id model chunk [] = []
gemini_yielded id model chunk (c ∷ more) = gemini_chunk id model chunk c ∷ []

-- `decode` is `JSON.parse` of a payload.
module _ (decode : Text → Option GeminiResponse) where
  abbrev pub gemini_step : String → String → Option GeminiResponse → Streamed → Streamed
  gemini_step id model none rest = ([], some no_json)
  gemini_step id model (some chunk) rest =
      and_then (gemini_yielded id model chunk chunk.candidates) rest

  unfoldable pub gemini_chunks : String → String → List Text → Streamed
  gemini_chunks id model [] = ([], none)
  gemini_chunks id model (p ∷ ps) = gemini_step id model (decode p) (gemini_chunks id model ps)

  -- `fetch` is given the model, which stands in the URL, and `id` is `randomUUID()`.
  module _ (show : ℕ → String) (api_key : Option String)
      (fetch : String → GeminiRequest → Outcome CallFailure (FetchReply GeminiResponse))
      (fetch_stream : String → GeminiRequest → Outcome CallFailure (FetchReply (List Text))) where
    abbrev pub gemini_authorized : {A : Type 0} → Outcome CallFailure A → Outcome CallFailure A
    gemini_authorized reply =
        if has_key_set api_key
        then reply
        else threw (provider_error "Gemini is not configured (missing GEMINI_API_KEY)" gemini_name)

    unfoldable pub gemini_chat :
        String → UnifiedChatRequest → Outcome CallFailure UnifiedChatResponse
    unfolding gemini_request
    gemini_chat id req = gemini_authorized (
        from_reply show gemini_name "Gemini request failed: "
          (λ r. with_json r.body (λ body. gemini_response id req.model body body.candidates))
          (fetch req.model (gemini_request req)))

    unfoldable pub gemini_chat_stream : String → UnifiedChatRequest → Streamed
    unfolding gemini_chunks gemini_request
    gemini_chat_stream id req = stream_of (
        gemini_authorized (
          from_reply show gemini_name "Gemini request failed: "
            (from_body show gemini_name "Gemini request failed: "
              (λ texts. gemini_chunks id req.model (parse_sse_lines texts)))
            (fetch_stream req.model (gemini_request req))))

-- A model of the list, with its `supportedGenerationMethods`, if it has any.
pub record GeminiListed : Type 0 where
  pub name : String
  pub methods : Option (List String)

abbrev pub generates_content : Option (List String) → Bool
generates_content none = false
generates_content (some methods) = any (λ m. str_eq m "generateContent") methods

-- `without_prefix` takes a leading `models/` away.
module _ (redis : KeyValue (List ModelInfo)) (show : ℕ → String) (api_key : Option String)
    (without_prefix : String → String)
    (fetch_list : Outcome CallFailure (FetchReply (List GeminiListed))) where
  open redis use {Store}

  abbrev pub gemini_listed : FetchReply (List GeminiListed) → Outcome CallFailure (List ModelInfo)
  gemini_listed r =
      if is_success r.status
      then with_json r.body (λ models. returned (
          map (λ m. record { id = without_prefix m.name; provider = gemini_name })
            (filter (λ m. generates_content m.methods) models)))
      else threw (failed_with show gemini_name "Gemini models list failed: " r.status "")

  unfoldable pub gemini_models : Store → Store × Outcome CallFailure (List ModelInfo)
  unfolding cached_models
  gemini_models s =
      if has_key_set api_key
      then cached_models redis gemini_name (after_fetched gemini_listed fetch_list) s
      else (s, returned [])
