-- ===== src/Providers/Tests.antt =====
-- Runs of the adapters, and their theorems at concrete streams.
use cloud_mesh.Common.{
  ◌≡◌, refl, true, Option, none, some, List, [], ◌∷◌, ◌==◌, inl, inr, if◌then◌else◌,
}
use cloud_mesh.CircuitBreaker.{threw}
use cloud_mesh.Billing.Pricing.{compute_cost}
use cloud_mesh.Stream.{Text, codes}
use cloud_mesh.Chat.{UnifiedMessage, provider_error}
use cloud_mesh.Providers.OpenAi.{OpenAiCompletion, zero_usage, openai_chunks, openai_chat}
use cloud_mesh.Providers.Anthropic.{
  AnthropicEvent, anthropic_request, anthropic_start, anthropic_chunks, anthropic_response,
  anthropic_name,
}
use cloud_mesh.Providers.Agreement.{
  start_event, text_event, end_event, stop_event, assembled_from, whole_message,
  anthropic_stream-chat,
}
use cloud_mesh.Providers.Prompts.{split_messages, split_system_prompt}
use cloud_mesh.Providers.Gemini.{gemini_request}
use cloud_mesh.Providers.Conversation.{
  system_texts, turns, prompt_of, AreTurns, anthropic_request-gemini_request,
}
use cloud_mesh.Providers.{UnifiedChatRequest}
use cloud_mesh.Providers.Unbilled.{openai_stream-compute_cost}

-- Payloads told apart by their first character.
abbrev decode : Text → Option AnthropicEvent
decode [] = none
decode (c ∷ more) =
    if c == 49
    then some (start_event "msg" 12)
    else if c == 50
    then some (text_event "Hel")
    else if c == 51
    then some (text_event "lo")
    else if c == 52
    then some (end_event (some "max_tokens") 2)
    else if c == 53
    then some stop_event
    else some (record stop_event { event_type = "ping" })

abbrev payloads : List Text
payloads = codes "1" ∷ codes "2" ∷ codes "6" ∷ codes "3" ∷ codes "6" ∷ codes "4" ∷ codes "5" ∷ []

anthropic_stream-chat_example :
    (assembled_from anthropic_name "claude"
        (anthropic_chunks decode "claude" anthropic_start payloads).0
      ≡ anthropic_response "claude"
          (whole_message decode "claude" "msg" 12 ("Hel" ∷ "lo" ∷ []) (some "max_tokens") 2))
    × ((anthropic_chunks decode "claude" anthropic_start payloads).1 ≡ none)
anthropic_stream-chat_example =
    anthropic_stream-chat decode "claude" "msg" 12 ("Hel" ∷ "lo" ∷ []) (some "max_tokens") 2
      payloads
      (inl (
        refl,
        inl (
          refl,
          inr (
            record stop_event { event_type = "ping" },
            refl,
            (refl, refl, refl, refl),
            inl (
              refl,
              inr (
                record stop_event { event_type = "ping" },
                refl,
                (refl, refl, refl, refl),
                inl (refl, inl (refl, tt)),
              ),
            ),
          ),
        ),
      ))

-- Two chunks of text, and one with the usage and no choice.
abbrev openai_decode : Text → Option OpenAiCompletion
openai_decode [] = none
openai_decode (c ∷ more) =
    if c == 49
    then some (record {
      id = some "cmpl";
      choices = record { content = some "Hello"; finish_reason = none } ∷ [];
      usage = none;
    })
    else if c == 50
    then some (record {
      id = some "cmpl";
      choices = record { content = none; finish_reason = some "stop" } ∷ [];
      usage = none;
    })
    else some (record {
      id = some "cmpl";
      choices = [];
      usage = some (record { prompt_tokens = 900; completion_tokens = 100 });
    })

abbrev openai_payloads : List Text
openai_payloads = codes "1" ∷ codes "2" ∷ codes "3" ∷ codes "[DONE]" ∷ []

openai_stream-compute_cost_example :
    ((assembled_from "openai" "gpt-4o"
        (openai_chunks openai_decode "id" "gpt-4o" openai_payloads).0).usage
      ≡ zero_usage)
    × (compute_cost "gpt-4o"
          (assembled_from "openai" "gpt-4o"
            (openai_chunks openai_decode "id" "gpt-4o" openai_payloads).0).usage
        ≡ 0)
openai_stream-compute_cost_example =
    openai_stream-compute_cost openai_decode "id" "gpt-4o" "gpt-4o" openai_payloads
      (inr refl, (inr refl, (inl refl, (inl refl, tt))))

-- Without a key nothing is sent.
no_key :
    openai_chat openai_decode
      (λ n. "")
      none
      (λ r. threw (provider_error "sent" "test"))
      (λ r. threw (provider_error "sent" "test"))
      (record { model = "gpt-4o"; messages = []; max_tokens = none; temperature = none })
    ≡ threw (provider_error "OpenAI is not configured (missing OPENAI_API_KEY)" "openai")
unfolding openai_chat
no_key = refl

abbrev conversation : List UnifiedMessage
conversation =
    record { role = "system"; content = "Be brief." }
    ∷ record { role = "user"; content = "Hi" }
    ∷ record { role = "assistant"; content = "Hello" }
    ∷ record { role = "system"; content = "In French." }
    ∷ record { role = "user"; content = "Again" }
    ∷ []

one_prompt : (split_system_prompt conversation).0 ≡ some "Be brief.\nIn French."
unfolding split_system_prompt split_messages
one_prompt = refl

abbrev request : UnifiedChatRequest
request = record { model = "auto"; messages = conversation; max_tokens = none; temperature = none }

anthropic_request-gemini_request_example :
    ((anthropic_request true request).system ≡ prompt_of (system_texts conversation))
    × ((gemini_request request).system_instruction ≡ prompt_of (system_texts conversation))
    × ((anthropic_request true request).messages ≡ turns conversation)
    × AreTurns (turns conversation) (gemini_request request).contents
anthropic_request-gemini_request_example = anthropic_request-gemini_request true request
