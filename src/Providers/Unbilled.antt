-- ===== src/Providers/Unbilled.antt =====
-- What a streamed request to OpenAI is billed.
use cloud_mesh.Common.{
  ◌≡◌, refl, ap, ◌∙◌, String, Bool, true, false, Option, none, some, List, [], ◌∷◌, All, get_or,
  arith, Bool-cases, ◌⊎◌, inl, inr, if◌then◌else◌,
}
use cloud_mesh.Billing.Pricing.{UnifiedUsage, compute_cost}
use cloud_mesh.Stream.{Text, strip, codes}
use cloud_mesh.Chat.{UnifiedChatChunk}
use cloud_mesh.Chat.Streaming.{Assembly, unassembled, assemble_chunk, assemble}
use cloud_mesh.Providers.{Streamed, and_then}
use cloud_mesh.Providers.OpenAi.{
  OpenAiCompletion, OpenAiChoice, zero_usage, openai_yielded, openai_step, is_done_mark,
  openai_chunks,
}
use cloud_mesh.Providers.Agreement.{assembled_from}

-- A chunk that has no choice, or no usage; OpenAI sends the usage, if it is asked to, in a chunk
-- without choices.
abbrev pub HasNoUsage : Option OpenAiCompletion → Type 0
HasNoUsage none = Unit {0}
HasNoUsage (some c) = (c.choices ≡ []) ⊎ (c.usage ≡ none)

abbrev AreUnbilled : List UnifiedChatChunk → Type 0
AreUnbilled cs = All (λ c. c.usage ≡ none) cs

kept_usage :
    (done : Bool) (usage : Option UnifiedUsage) (old : UnifiedUsage)
    → usage ≡ none
    → (if done then get_or usage old else old) ≡ old
kept_usage true usage old is = rw is refl
kept_usage false usage old is = refl

assemble-AreUnbilled :
    (cs : List UnifiedChatChunk) (a : Assembly) → AreUnbilled cs → (assemble cs a).usage ≡ a.usage
unfolding assemble
assemble-AreUnbilled [] a h = refl
assemble-AreUnbilled (c ∷ cs) a (h, hs) =
    assemble-AreUnbilled cs (assemble_chunk c a) hs ∙ kept_usage c.done c.usage a.usage h

compute_cost-zero_usage : (model : String) → compute_cost model zero_usage ≡ 0
unfolding compute_cost
compute_cost-zero_usage model = omega arith

module _ (decode : Text → Option OpenAiCompletion) (id model : String) where
  yielded-AreUnbilled :
      (chunk : OpenAiCompletion) (choices : List OpenAiChoice) (rest : Streamed)
      → (choices ≡ []) ⊎ (chunk.usage ≡ none)
      → AreUnbilled rest.0
      → AreUnbilled (and_then (openai_yielded id model chunk choices) rest).0
  yielded-AreUnbilled chunk [] rest h hs = hs
  yielded-AreUnbilled chunk (choice ∷ more) rest (inl is) hs = cc
  yielded-AreUnbilled chunk (choice ∷ more) rest (inr is) hs = (is, hs)

  step-AreUnbilled :
      (payload : Option OpenAiCompletion) (rest : Streamed)
      → HasNoUsage payload
      → AreUnbilled rest.0
      → AreUnbilled (openai_step decode id model payload rest).0
  step-AreUnbilled none rest h hs = tt
  step-AreUnbilled (some chunk) rest h hs = yielded-AreUnbilled chunk chunk.choices rest h hs

  chunks-AreUnbilled :
      (ps : List Text)
      → All (λ p. HasNoUsage (decode p)) ps
      → AreUnbilled (openai_chunks decode id model ps).0
  unfolding openai_chunks
  chunks-AreUnbilled [] h = tt
  chunks-AreUnbilled (p ∷ ps) (h, hs) =
      elim (Bool-cases (is_done_mark (strip (codes "[DONE]") p))) [
        | inl ends ↦ rw ends tt
        | inr goes_on ↦ rw goes_on (
            step-AreUnbilled (decode p) (openai_chunks decode id model ps) h
              (chunks-AreUnbilled ps hs))
      ]

  -- As long as no chunk with a choice has a usage, what the chat route assembles from OpenAI's stream
  -- has a usage of zero, whatever was generated, and costs nothing, whatever the model.
  pub openai_stream-compute_cost :
      (billed : String) (ps : List Text)
      → All (λ p. HasNoUsage (decode p)) ps
      → ((assembled_from "openai" model (openai_chunks decode id model ps).0).usage ≡ zero_usage)
        × (compute_cost billed
              (assembled_from "openai" model (openai_chunks decode id model ps).0).usage
            ≡ 0)
  openai_stream-compute_cost billed ps h =
      let none_used =
        assemble-AreUnbilled (openai_chunks decode id model ps).0 unassembled
          (chunks-AreUnbilled ps h) in
      (none_used, ap (compute_cost billed) none_used ∙ compute_cost-zero_usage billed)
