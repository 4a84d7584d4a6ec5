-- ===== src/Providers/Conversation.antt =====
-- What the adapters for Anthropic and Gemini send of a conversation.
use Prim.Native.String.{◌++◌ as ◌+++◌}
use text.Mathlib.TextLemmas.{append-nil}
use cloud_mesh.Common.{
  ◌≡◌, ◌≢◌, ◌⊎◌, refl, ap, sym, ◌∙◌, String, Bool, true, false, not, Option, none, some, List, [],
  ◌∷◌, map, filter, str_eq, eq_iff, Bool-cases, inl, inr,
}
use cloud_mesh.Chat.{UnifiedMessage}
use cloud_mesh.Providers.{UnifiedChatRequest}
use cloud_mesh.Providers.Prompts.{
  is_system, split_message, split_messages, join_lines, system_of, split_system_prompt,
}
use cloud_mesh.Providers.Anthropic.{anthropic_request}
use cloud_mesh.Providers.Gemini.{
  GeminiContent, gemini_content, add_to_payload, gemini_parts, instruction_of, to_gemini_payload,
  gemini_request,
}

-- The two parts of a conversation, each in its order.
abbrev pub system_texts : List UnifiedMessage → List String
system_texts ms = map (λ m. m.content) (filter (λ m. str_eq m.role "system") ms)

abbrev pub turns : List UnifiedMessage → List UnifiedMessage
turns ms = filter (λ m. not (str_eq m.role "system")) ms

-- Texts, each on lines of its own.
abbrev pub more_lines : List String → String
more_lines [] = ""
more_lines (s ∷ ss) = "\n" +++ (s +++ more_lines ss)

abbrev pub prompt_of : List String → Option String
prompt_of [] = none
prompt_of (s ∷ ss) = some (s +++ more_lines ss)

-- A turn as Gemini takes it: the same text, from the model where the assistant speaks.
abbrev pub IsTurn : UnifiedMessage → GeminiContent → Type 0
IsTurn m c =
    (c.text ≡ m.content)
    × (((m.role ≡ "assistant") × (c.role ≡ "model")) ⊎ ((m.role ≢ "assistant") × (c.role ≡ "user")))

abbrev pub AreTurns : List UnifiedMessage → List GeminiContent → Type 0
AreTurns [] [] = Unit {0}
AreTurns (m ∷ ms) (c ∷ cs) = IsTurn m c × AreTurns ms cs
AreTurns _ _ = true ≡ false

gemini_content-IsTurn : (m : UnifiedMessage) → IsTurn m (gemini_content m)
gemini_content-IsTurn m = elim (Bool-cases (str_eq m.role "assistant")) [
  | inl same ↦ (refl, inl ((eq_iff m.role "assistant").0 same, rw same refl))
  | inr other ↦ (
    refl,
    inr (
      λ same. let e : true ≡ false = sym ((eq_iff m.role "assistant").1 same) ∙ other in cc,
      rw other refl,
    ),
  )
]

contents-AreTurns : (ms : List UnifiedMessage) → AreTurns ms (map gemini_content ms)
contents-AreTurns [] = tt
contents-AreTurns (m ∷ ms) = (gemini_content-IsTurn m, contents-AreTurns ms)

lines_joined : (s : String) (ss : List String) → join_lines (s ∷ ss) ≡ s +++ more_lines ss
lines_joined s [] = sym (append-nil s)
lines_joined s (t ∷ ss) = ap (λ more. s +++ ("\n" +++ more)) (lines_joined t ss)

system_prompt : (parts : List String) → system_of parts ≡ prompt_of parts
system_prompt [] = refl
system_prompt (s ∷ ss) = ap some (lines_joined s ss)

instruction : (parts : List String) → instruction_of parts ≡ prompt_of parts
instruction [] = refl
instruction (s ∷ ss) = ap some (lines_joined s ss)

message_split :
    (m : UnifiedMessage) (ms : List UnifiedMessage) (b : Bool)
    → is_system m ≡ b
    → split_message m (system_texts ms, turns ms) ≡ (system_texts (m ∷ ms), turns (m ∷ ms))
message_split m ms true is = rw (split_message, system_texts, turns, filter, is) refl
message_split m ms false is = rw (split_message, system_texts, turns, filter, is) refl

split_messages_parts : (ms : List UnifiedMessage) → split_messages ms ≡ (system_texts ms, turns ms)
unfolding split_messages
split_messages_parts [] = refl
split_messages_parts (m ∷ ms) =
    ap (split_message m) (split_messages_parts ms) ∙ message_split m ms (is_system m) refl

payload_split :
    (m : UnifiedMessage) (ms : List UnifiedMessage) (b : Bool)
    → is_system m ≡ b
    → add_to_payload m (system_texts ms, map gemini_content (turns ms))
      ≡ (system_texts (m ∷ ms), map gemini_content (turns (m ∷ ms)))
payload_split m ms true is = rw (add_to_payload, system_texts, turns, filter, is) refl
payload_split m ms false is = rw (add_to_payload, system_texts, turns, filter, is) refl

gemini_parts_split :
    (ms : List UnifiedMessage) → gemini_parts ms ≡ (system_texts ms, map gemini_content (turns ms))
unfolding gemini_parts
gemini_parts_split [] = refl
gemini_parts_split (m ∷ ms) =
    ap (add_to_payload m) (gemini_parts_split ms) ∙ payload_split m ms (is_system m) refl

-- Both adapters send the same conversation, with a stream and without: one system prompt, the texts
-- of the system messages, in their order and each on lines of its own, or none if there is no such
-- message; and the other messages, all of them and in their order. Gemini gets their texts as they
-- are, the assistant's from the model and all others from the user.
pub anthropic_request-gemini_request :
    (stream : Bool) (req : UnifiedChatRequest)
    → ((anthropic_request stream req).system ≡ prompt_of (system_texts req.messages))
      × ((gemini_request req).system_instruction ≡ prompt_of (system_texts req.messages))
      × ((anthropic_request stream req).messages ≡ turns req.messages)
      × AreTurns (turns req.messages) (gemini_request req).contents
unfolding anthropic_request gemini_request split_system_prompt to_gemini_payload
anthropic_request-gemini_request stream req =
    let ms = req.messages in
    (
      rw (split_messages_parts ms) (system_prompt (system_texts ms)),
      rw (gemini_parts_split ms) (instruction (system_texts ms)),
      rw (split_messages_parts ms) refl,
      rw (gemini_parts_split ms) (contents-AreTurns (turns ms)),
    )
