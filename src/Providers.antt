-- ===== src/Providers.antt =====
-- apps/gateway/src/providers/types.ts, and what the adapters share. What `fetch` answers is an argument, with
-- its body as `JSON.parse` gives it: the fields that the adapter's interface declares. The numbers of
-- a request are in units of their own.
pub mod OpenAi
pub mod Prompts
pub mod Anthropic
pub mod Gemini
pub mod Ollama
pub mod Agreement
pub mod Unbilled
pub mod Conversation
mod Tests
use Prim.Native.String.{◌++◌ as ◌+++◌}
use cloud_mesh.Common.{
  ℕ, String, Bool, true, false, ◌&&◌, Option, none, some, List, [], ◌∷◌, leb, ltb, if◌then◌else◌,
  get_or,
}
use cloud_mesh.Common.KeyValue.{KeyValue}
use cloud_mesh.CircuitBreaker.{Outcome, returned, threw}
use cloud_mesh.Stream.{Text}
use cloud_mesh.Chat.{
  UnifiedMessage, UnifiedChatChunk, CallFailure, provider_error, service_unavailable, other,
}
use cloud_mesh.Chat.Streaming.{Body}

pub record UnifiedChatRequest : Type 0 where
  pub model : String
  pub messages : List UnifiedMessage
  pub max_tokens : Option ℕ
  pub temperature : Option ℕ

pub record ModelInfo : Type 0 where
  pub id : String
  pub provider : String

-- A reply: `body` is what `res.json()` gives, unless it throws.
pub record FetchReply (B : Type 0) : Type 0 where
  pub status : ℕ
  pub text : String
  pub body : Option B

-- `res.ok`.
abbrev pub is_success : ℕ → Bool
is_success status = leb 200 status && ltb status 300

abbrev pub no_json : CallFailure
no_json = other "SyntaxError"

abbrev pub with_json :
    {A B : Type 0} → Option B → (B → Outcome CallFailure A) → Outcome CallFailure A
with_json none k = threw no_json
with_json (some body) k = k body

-- What `fetch` throws passes through.
abbrev pub after_fetched :
    {A B : Type 0}
    → (FetchReply B → Outcome CallFailure A)
    → Outcome CallFailure (FetchReply B)
    → Outcome CallFailure A
after_fetched k (threw failure) = threw failure
after_fetched k (returned r) = k r

-- The text in front of a status, and what follows it.
abbrev pub failed_with : (ℕ → String) → String → String → ℕ → String → CallFailure
failed_with show name label status text = provider_error (label +++ (show status +++ text)) name

-- What becomes of a reply, if `fetch` gave one; `show` prints a status.
abbrev pub from_reply :
    {A B : Type 0}
    → (ℕ → String)
    → String
    → String
    → (FetchReply B → Outcome CallFailure A)
    → Outcome CallFailure (FetchReply B)
    → Outcome CallFailure A
from_reply show name label k (threw failure) = threw failure
from_reply show name label k (returned r) =
    if is_success r.status
    then k r
    else threw (failed_with show name label r.status (" " +++ r.text))

-- A stream: the chunks that it yields, and what it throws in the end, if it does.
abbrev pub Streamed : Type 0
Streamed = List UnifiedChatChunk × Option CallFailure

abbrev pub and_then : List UnifiedChatChunk → Streamed → Streamed
and_then [] rest = rest
and_then (c ∷ cs) rest = let (out, failure) = and_then cs rest in (c ∷ out, failure)

abbrev pub stream_of : Outcome CallFailure Streamed → Streamed
stream_of (threw failure) = ([], some failure)
stream_of (returned s) = s

-- A reply without a body is a failure.
abbrev pub from_body :
    (ℕ → String)
    → String
    → String
    → (List Text → Streamed)
    → FetchReply (List Text)
    → Outcome CallFailure Streamed
from_body show name label read r = elim r.body [
  | none ↦ threw (failed_with show name label r.status (" " +++ r.text))
  | some texts ↦ returned (read texts)
]

abbrev pub failure_message : CallFailure → String
failure_message (provider_error message provider) = message
failure_message (service_unavailable message) = message
failure_message (other message) = message

-- The first `next()` of the route, which may throw, and the rest of the stream.
unfoldable pub first_next : Streamed → Outcome CallFailure (Option Body)
first_next ([], some failure) = threw failure
first_next ([], none) = returned none
first_next (c ∷ cs, none) = returned (some (record { first = c; rest = cs; broken = none }))
first_next (c ∷ cs, some failure) =
    returned (some (record { first = c; rest = cs; broken = some (failure_message failure) }))

module _ (redis : KeyValue (List ModelInfo)) where
  open redis use {Store, get, put}

  abbrev pub keep_models :
      String
      → Store
      → Outcome CallFailure (List ModelInfo)
      → Store × Outcome CallFailure (List ModelInfo)
  keep_models key s (threw failure) = (s, threw failure)
  keep_models key s (returned models) = (put s key models, returned models)

  abbrev pub models_by_cache :
      String
      → Option (List ModelInfo)
      → Outcome CallFailure (List ModelInfo)
      → Store
      → Store × Outcome CallFailure (List ModelInfo)
  models_by_cache key (some cached) live s = (s, returned cached)
  models_by_cache key none live s = keep_models key s live

  -- `cachedModels`, where `live` is what the provider answers now.
  unfoldable pub cached_models :
      String
      → Outcome CallFailure (List ModelInfo)
      → Store
      → Store × Outcome CallFailure (List ModelInfo)
  cached_models provider live s =
      let key = "models:" +++ provider in models_by_cache key (get s key) live s
