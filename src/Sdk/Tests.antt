-- ===== src/Sdk/Tests.antt =====
-- Runs of the client, and its theorems at concrete inputs.
use cloud_mesh.Common.{
  ℕ, ◌<◌, ◌==◌, ◌≡◌, ◌≢◌, refl, true, false, Option, none, some, [], ◌∷◌, ◌++◌, arith,
}
use cloud_mesh.CircuitBreaker.{returned}
use cloud_mesh.Stream.{Text, codes, newline}
use cloud_mesh.Stream.Events.{write_sse, IsOneLine}
use cloud_mesh.Sdk.{
  HttpResponse, Fetched, replied, request, error_from_response, class_of, is_retryable, backoff_ms,
}
use cloud_mesh.Sdk.Requests.{play, rest, is_retried, outcome_of, sleep_after, request-Ends}
use cloud_mesh.Sdk.Reader.{Wire, ChatChunk, read_stream}
use cloud_mesh.Sdk.RoundTrip.{Json, read_stream-body_of}

abbrev answer : ℕ → Option ℕ → Fetched
answer status retry_after = replied (record {
  status = status;
  body_error = none;
  body_code = none;
  retry_after_ms = retry_after;
  request_id = none;
})

abbrev ok : HttpResponse
ok = record {
  status = 200;
  body_error = none;
  body_code = none;
  retry_after_ms = none;
  request_id = none;
}

-- A 429 that asks for 7 s, a 503, and then success: two sleeps.
request-Ends_example :
    request play rest 2
      (record { answers = answer 429 (some 7000) ∷ answer 503 none ∷ replied ok ∷ []; sleeps = [] })
    ≡ (record { answers = []; sleeps = 7000 ∷ 500 ∷ [] }, returned ok)
unfolding is_retried outcome_of sleep_after error_from_response class_of is_retryable backoff_ms
request-Ends_example =
    request-Ends 2 (answer 429 (some 7000) ∷ answer 503 none ∷ []) (replied ok) []
      (refl, (refl, tt)) (omega arith, λ lt. refl)

-- Objects of two kinds: a word, and the report of an error.
data Object : Type 0 where
  word oops : Object

abbrev object_text : Object → Text
object_text word = codes "{w}"
object_text oops = codes "{e}"

abbrev object_inner : Object → Text
object_inner word = codes "w"
object_inner oops = codes "e"

abbrev object_at : Text → Option Object
object_at (a ∷ b ∷ s) = elim (b == b'w') [ true ↦ some word | false ↦ some oops ]
object_at _ = none

above : (k : ℕ) → 10 < k → k ≢ newline
above k lt e = absurd (omega arith)

object_in_braces : (a : Object) → object_text a ≡ b'{' ∷ (object_inner a ++ b'}' ∷ [])
object_in_braces word = refl
object_in_braces oops = refl

object-IsOneLine : (a : Object) → IsOneLine (object_inner a)
object-IsOneLine word = (above _ (omega arith), tt)
object-IsOneLine oops = (above _ (omega arith), tt)

object_round : (a : Object) → object_at (object_text a) ≡ some a
object_round word = refl
object_round oops = refl

abbrev objects : Json Object
objects = record {
  text_of = object_text;
  parse = object_at;
  inner = object_inner;
  in_braces = object_in_braces;
  one_line = object-IsOneLine;
  parse-text_of = object_round;
}

abbrev object_wire : Object → Wire
object_wire word = record { delta = some (codes "hi"); model = none; provider = none }
object_wire oops = record { delta = none; model = none; provider = none }

abbrev hi : ChatChunk
hi = record { text = codes "hi"; model = none; provider = none }

-- A stream that fails after one word, in two chunks.
read_stream-body_of_example :
    read_stream object_at object_wire
      (codes "data: {w}\n" ∷ codes "\ndata: {e}\n\ndata: [DONE]\n\n" ∷ [])
      []
    ≡ hi ∷ []
unfolding write_sse
read_stream-body_of_example =
    read_stream-body_of objects object_wire (word ∷ oops ∷ [])
      (codes "data: {w}\n" ∷ codes "\ndata: {e}\n\ndata: [DONE]\n\n" ∷ []) refl

-- A body without an event, such as the JSON of a replayed result, is read as an empty stream.
replay_unread : read_stream object_at object_wire (codes "{w}" ∷ []) [] ≡ []
unfolding read_stream
replay_unread = refl
