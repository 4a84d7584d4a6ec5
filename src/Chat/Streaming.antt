-- ===== src/Chat/Streaming.antt =====
-- The chat route with a stream: the first chunk decides between an error and an event stream, and
-- what was assembled is billed before the stream ends.
use Prim.Native.String.{◌++◌ as ◌+++◌}
use cloud_mesh.Common.{String, Option, none, some, List, [], ◌∷◌, ◌++◌, map, get_or, if◌then◌else◌}
use cloud_mesh.CircuitBreaker.{Outcome, returned, threw}
use cloud_mesh.Billing.Pricing.{UnifiedUsage}
use cloud_mesh.Routing.{ResolvedModel}
use cloud_mesh.Chat.{
  Redis, ChatWorld, UnifiedChatResponse, UnifiedChatChunk, FinishReason, stop, Frame, chunk_frame,
  error_frame, end_frame, CallFailure, provider_error, service_unavailable, other,
}
use cloud_mesh.Chat.Answer.{
  Caller, ChatReply, streamed, failed, rethrown, provider_failure, unavailable, empty_stream,
  stored_for, recorded_for, billing_of,
}

-- A provider's stream after its first `next`: the chunks, and the message if it broke off.
pub record Body : Type 0 where
  pub first : UnifiedChatChunk
  pub rest : List UnifiedChatChunk
  pub broken : Option String

pub record Assembly : Type 0 where
  pub response_id : String
  pub full_text : String
  pub finish_reason : FinishReason
  pub usage : UnifiedUsage

abbrev pub unassembled : Assembly
unassembled = record {
  response_id = "";
  full_text = "";
  finish_reason = stop;
  usage = record { prompt_tokens = 0; completion_tokens = 0 };
}

abbrev pub assemble_chunk : UnifiedChatChunk → Assembly → Assembly
assemble_chunk c a = record {
  response_id = c.id;
  full_text = a.full_text +++ c.delta;
  finish_reason = if c.done then get_or c.finish_reason stop else a.finish_reason;
  usage = if c.done then get_or c.usage a.usage else a.usage;
}

-- The `for await` loop.
unfoldable pub assemble : List UnifiedChatChunk → Assembly → Assembly
assemble [] a = a
assemble (c ∷ cs) a = assemble cs (assemble_chunk c a)

abbrev pub error_frames : Option String → List Frame
error_frames none = []
error_frames (some message) = error_frame message ∷ []

unfoldable pub frames_of : Body → List Frame
frames_of b = map chunk_frame (b.first ∷ b.rest) ++ (error_frames b.broken ++ end_frame ∷ [])

module _ (redis : Redis) (W : Type 0) where
  abbrev pub assembled : ResolvedModel → Body → UnifiedChatResponse
  assembled resolved b =
      let a = assemble (b.first ∷ b.rest) unassembled in
      record {
        id = a.response_id;
        provider = resolved.provider;
        model = resolved.provider_model;
        message = record { role = "assistant"; content = a.full_text };
        finish_reason = a.finish_reason;
        usage = a.usage;
      }

  abbrev pub settle_stream :
      Caller
      → ResolvedModel
      → UnifiedChatResponse
      → Option String
      → ChatWorld redis W
      → ChatWorld redis W
  settle_stream caller resolved x (some message) w = w
  settle_stream caller resolved x none w =
      stored_for redis W caller x
        (recorded_for redis W (billing_of redis W caller resolved.provider_model x) w)

  abbrev pub finish_stream :
      Caller
      → ResolvedModel
      → Outcome CallFailure (Option Body)
      → ChatWorld redis W
      → ChatWorld redis W × ChatReply
  finish_stream caller resolved (threw (provider_error message provider)) w =
      (w, failed 502 (provider_failure message provider))
  finish_stream caller resolved (threw (service_unavailable message)) w =
      (w, failed 503 (unavailable message))
  finish_stream caller resolved (threw (other message)) w = (w, rethrown message)
  finish_stream caller resolved (returned none) w = (w, failed 502 empty_stream)
  finish_stream caller resolved (returned (some b)) w =
      (settle_stream caller resolved (assembled resolved b) b.broken w, streamed (frames_of b))
