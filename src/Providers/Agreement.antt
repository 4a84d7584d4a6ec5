-- ===== src/Providers/Agreement.antt =====
-- A provider's answer is the same with and without a stream: what the chat route assembles from the
-- adapter's chunks is what the adapter's `chat` returns for the same message.
use Prim.Native.String.{◌++◌ as ◌+++◌}
use cloud_mesh.Common.{
  ℕ, ◌≡◌, refl, ap, sym, ◌∙◌, String, true, false, Option, none, some, List, [], ◌∷◌, ◌++◌, map,
  str_eq, get_or, eq_iff, filter, Bool-cases, inl, inr, ◌⊎◌, subst,
}
use text.Mathlib.TextLemmas.{append_assoc, append-nil, nil-append}
use cloud_mesh.Stream.{Text}
use cloud_mesh.Chat.{UnifiedChatChunk, UnifiedChatResponse}
use cloud_mesh.Chat.Streaming.{Assembly, unassembled, assemble_chunk, assemble}
use cloud_mesh.Providers.{Streamed, and_then}
use cloud_mesh.Providers.Anthropic.{
  AnthropicMessage, AnthropicEvent, AnthropicState, ContentBlock, anthropic_chunks, anthropic_start,
  anthropic_response, anthropic_finish_reason, anthropic_name, join_text, delta_chunk, text_chunks,
  or_else, on_event, final_chunk,
}

-- The events of a message whose text comes in pieces.
abbrev pub start_event : String → ℕ → AnthropicEvent
start_event id input = record {
  event_type = "message_start";
  message = some (id, input);
  delta_type = none;
  text = none;
  stop_reason = none;
  output_tokens = none;
}

abbrev pub text_event : String → AnthropicEvent
text_event piece = record {
  event_type = "content_block_delta";
  message = none;
  delta_type = some "text_delta";
  text = some piece;
  stop_reason = none;
  output_tokens = none;
}

abbrev pub end_event : Option String → ℕ → AnthropicEvent
end_event reason output = record {
  event_type = "message_delta";
  message = none;
  delta_type = none;
  text = none;
  stop_reason = reason;
  output_tokens = some output;
}

abbrev pub stop_event : AnthropicEvent
stop_event = record {
  event_type = "message_stop";
  message = none;
  delta_type = none;
  text = none;
  stop_reason = none;
  output_tokens = none;
}

-- An event of a type that the adapter does not know: the start and the end of a content block, a
-- ping, and whatever types Anthropic adds.
abbrev pub IsIgnored : AnthropicEvent → Type 0
IsIgnored e =
    (str_eq e.event_type "message_start" ≡ false)
    × (str_eq e.event_type "content_block_delta" ≡ false)
    × (str_eq e.event_type "message_delta" ≡ false)
    × (str_eq e.event_type "message_stop" ≡ false)

-- Payloads that decode to the events of a list, with any number of others before each of them.
abbrev pub Decode : (Text → Option AnthropicEvent) → List Text → List AnthropicEvent → Type 0
Decode decode [] [] = Unit {0}
Decode decode [] (e ∷ es) = true ≡ false
Decode decode (p ∷ ps) [] = true ≡ false
Decode decode (p ∷ ps) (e ∷ es) =
    ((decode p ≡ some e) × Decode decode ps es)
    ⊎ ((i : AnthropicEvent) × (decode p ≡ some i) × IsIgnored i × Decode decode ps (e ∷ es))

-- The answer that the route makes of what it assembled, and of all the chunks of a stream.
abbrev pub response_of : String → String → Assembly → UnifiedChatResponse
response_of provider model a = record {
  id = a.response_id;
  provider = provider;
  model = model;
  message = record { role = "assistant"; content = a.full_text };
  finish_reason = a.finish_reason;
  usage = a.usage;
}

abbrev pub assembled_from : String → String → List UnifiedChatChunk → UnifiedChatResponse
assembled_from provider model chunks = response_of provider model (assemble chunks unassembled)

abbrev pub text_block : String → ContentBlock
text_block piece = record { block_type = "text"; text = some piece }

join_blocks :
    (pieces : List String)
    → join_text (
        map
          (λ b. get_or b.text "")
          (filter (λ b. str_eq b.block_type "text") (map text_block pieces)))
      ≡ join_text pieces
join_blocks [] = refl
join_blocks (piece ∷ pieces) = ap (λ s. piece +++ s) (join_blocks pieces)

module _ (decode : Text → Option AnthropicEvent) (model : String) where
  -- What is left of a message after its first pieces.
  abbrev rest_of : List String → Option String → ℕ → List AnthropicEvent
  rest_of pieces reason output = map text_event pieces ++ end_event reason output ∷ stop_event ∷ []

  abbrev ended_with : AnthropicState → Option String → ℕ → String → Assembly
  ended_with st reason output full_text = record {
    response_id = st.id;
    full_text = full_text;
    finish_reason = anthropic_finish_reason (or_else reason st.stop_reason);
    usage = record { prompt_tokens = st.prompt_tokens; completion_tokens = output };
  }

  one_piece :
      (piece : String) (st : AnthropicState) (rest : Streamed) (a : Assembly)
      (result : String → Assembly)
      → ((a' : Assembly) → assemble rest.0 a' ≡ result a'.full_text)
      → assemble (and_then (text_chunks model st true (some piece)) rest).0 a
        ≡ result (a.full_text +++ piece)
  unfolding assemble
  one_piece piece st rest a result h = elim (Bool-cases (str_eq piece "")) [
    | inl blank ↦
        rw (text_chunks, blank)
          (h a
            ∙ ap result (
                sym (append-nil a.full_text)
                ∙ ap (λ s. a.full_text +++ s) (sym ((eq_iff piece "").0 blank))))
    | inr some_text ↦
        rw (text_chunks, some_text) (h (assemble_chunk (delta_chunk model st piece) a))
  ]

  ignored_step :
      (i : AnthropicEvent) (st : AnthropicState) (p : Text) (ps : List Text)
      → decode p ≡ some i
      → IsIgnored i
      → anthropic_chunks decode model st (p ∷ ps) ≡ anthropic_chunks decode model st ps
  unfolding anthropic_chunks
  ignored_step i st p ps d (start, delta, end, stops) =
      rw (d, on_event, start, delta, end, stops) refl

  last_chunk :
      (st : AnthropicState) (ps : List Text)
      → Decode decode ps (stop_event ∷ [])
      → anthropic_chunks decode model st ps ≡ (final_chunk model st ∷ [], none)
  unfolding anthropic_chunks
  last_chunk st [] h = cc
  last_chunk st (p ∷ ps) (inl (d, h)) = rw d refl
  last_chunk st (p ∷ ps) (inr (i, d, ignored, h)) =
      ignored_step i st p ps d ignored ∙ last_chunk st ps h

  abbrev ended_state : AnthropicState → Option String → ℕ → AnthropicState
  ended_state st reason output = record st {
    stop_reason = or_else reason st.stop_reason;
    completion_tokens = output;
  }

  ending :
      (reason : Option String) (output : ℕ) (st : AnthropicState) (ps : List Text)
      → Decode decode ps (end_event reason output ∷ stop_event ∷ [])
      → anthropic_chunks decode model st ps
        ≡ (final_chunk model (ended_state st reason output) ∷ [], none)
  unfolding anthropic_chunks
  ending reason output st [] h = cc
  ending reason output st (p ∷ ps) (inl (d, h)) =
      rw d (last_chunk (ended_state st reason output) ps h)
  ending reason output st (p ∷ ps) (inr (i, d, ignored, h)) =
      ignored_step i st p ps d ignored ∙ ending reason output st ps h

  -- The chunks end in this, and nothing is thrown.
  abbrev IsWhole : Assembly → Assembly → Streamed → Type 0
  IsWhole a result streamed = (assemble streamed.0 a ≡ result) × (streamed.1 ≡ none)

  -- Nothing is thrown after the pieces either.
  and_then_failure :
      (out : List UnifiedChatChunk) (rest : Streamed) → (and_then out rest).1 ≡ rest.1
  and_then_failure [] rest = refl
  and_then_failure (c ∷ out) rest = and_then_failure out rest

  pieces-IsWhole :
      (pieces : List String) (reason : Option String) (output : ℕ) (st : AnthropicState)
      (ps : List Text) (a : Assembly)
      → Decode decode ps (rest_of pieces reason output)
      → IsWhole a
          (ended_with st reason output (a.full_text +++ join_text pieces))
          (anthropic_chunks decode model st ps)
  unfolding anthropic_chunks assemble
  pieces-IsWhole [] reason output st ps a h = rw (ending reason output st ps h) (refl, refl)
  pieces-IsWhole (piece ∷ pieces) reason output st [] a h = cc
  pieces-IsWhole (piece ∷ pieces) reason output st (p ∷ ps) a (inl (d, h)) = rw d (
    one_piece piece st (anthropic_chunks decode model st ps) a
          (λ text. ended_with st reason output (text +++ join_text pieces))
          (λ a'. (pieces-IsWhole pieces reason output st ps a' h).0)
        ∙ ap (ended_with st reason output) (append_assoc a.full_text piece (join_text pieces)),
    and_then_failure (text_chunks model st true (some piece)) (anthropic_chunks decode model st ps)
        ∙ (pieces-IsWhole pieces reason output st ps a h).1,
  )
  pieces-IsWhole (piece ∷ pieces) reason output st (p ∷ ps) a (inr (i, d, ignored, h)) =
      subst (IsWhole a (ended_with st reason output (a.full_text +++ join_text (piece ∷ pieces))))
        (sym (ignored_step i st p ps d ignored))
        (pieces-IsWhole (piece ∷ pieces) reason output st ps a h)

  abbrev pub whole_message : String → ℕ → List String → Option String → ℕ → AnthropicMessage
  whole_message id input pieces reason output = record {
    id = id;
    content = map text_block pieces;
    stop_reason = reason;
    input_tokens = input;
    output_tokens = output;
  }

  old_reason : (reason : Option String) → or_else reason none ≡ reason
  old_reason none = refl
  old_reason (some r) = refl

  -- Where Anthropic streams a message in pieces of text, with pings, the starts and ends of content
  -- blocks and events of other types anywhere before its end, what the chat route assembles from the
  -- adapter's chunks is the response that `chat` gives for the whole message, with its id, its text,
  -- its finish reason and its usage, and the stream does not fail.
  pub anthropic_stream-chat :
      (id : String) (input : ℕ) (pieces : List String) (reason : Option String) (output : ℕ)
      (ps : List Text)
      → Decode decode ps (
          start_event id input
          ∷ (map text_event pieces ++ end_event reason output ∷ stop_event ∷ []))
      → (assembled_from anthropic_name model (anthropic_chunks decode model anthropic_start ps).0
          ≡ anthropic_response model (whole_message id input pieces reason output))
        × ((anthropic_chunks decode model anthropic_start ps).1 ≡ none)
  unfolding anthropic_chunks
  anthropic_stream-chat id input pieces reason output [] h = cc
  anthropic_stream-chat id input pieces reason output (p ∷ ps) (inl (d, h)) =
      let st = record anthropic_start { id = id; prompt_tokens = input } in
      let (assembled, whole) = pieces-IsWhole pieces reason output st ps unassembled h in
      rw d (
        ap (response_of anthropic_name model) assembled
            ∙ ap (response_of anthropic_name model)
                (rw (old_reason reason, join_blocks pieces, nil-append (join_text pieces)) refl),
        whole,
      )
  anthropic_stream-chat id input pieces reason output (p ∷ ps) (inr (i, d, ignored, h)) =
      let (same, whole) = anthropic_stream-chat id input pieces reason output ps h in
      let skipped = ignored_step i anthropic_start p ps d ignored in
      (
        ap (λ (q : Streamed). assembled_from anthropic_name model q.0) skipped ∙ same,
        ap (λ (q : Streamed). q.1) skipped ∙ whole,
      )
