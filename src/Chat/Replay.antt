-- ===== src/Chat/Replay.antt =====
-- A retried request with an idempotency key is answered with the stored result and costs nothing.
use cloud_mesh.Common.{◌≡◌, ap, ◌∙◌, String, Option, none, some, eq_refl, if◌then◌else◌, inl, inr}
use cloud_mesh.CircuitBreaker.{Outcome}
use cloud_mesh.Billing.{Ledger}
use cloud_mesh.Routing.{ResolvedModel}
use cloud_mesh.Chat.{
  Redis, Serving, ChatWorld, ChatRequest, OrgFeatureFlags, UnifiedChatResponse, IdempotentRecord,
  CallFailure,
}
use cloud_mesh.Chat.Answer.{
  Caller, ChatReply, replayed, refused, answered, streamed, failed, rethrown, stored_under,
  replay_key, Services, get_idempotent_replay,
}
use cloud_mesh.Chat.Streaming.{Body, frames_of, assembled}
use cloud_mesh.Chat.Route.{Setting, chat, by_key, or_replay}
use cloud_mesh.Chat.Contract.{IsSettled, chat-IsSettled}

-- Everything about the gateway but its state and the caller.
pub record Gateway (redis : Redis) (W Vector : Type 0) : Type 1 where
  pub api : Services redis W Vector
  pub open_stream :
      ResolvedModel
      → ChatRequest
      → Serving redis W
      → Serving redis W × Outcome CallFailure (Option Body)
  pub sleep : redis.locks.Store × Ledger → redis.locks.Store × Ledger
  pub env : Setting
  pub flags : OrgFeatureFlags

module _ (redis : Redis) (W Vector : Type 0) (caller : Caller) where
  abbrev pub chat_at :
      Gateway redis W Vector → ChatRequest → ChatWorld redis W → ChatWorld redis W × ChatReply
  chat_at g req w = chat redis W Vector g.api g.open_stream g.sleep g.env g.flags caller req w

  -- Whatever the caller sends under the key, whenever, it gets this result, and nothing changes.
  abbrev pub Replays : UnifiedChatResponse → ChatWorld redis W → Type 1
  Replays x w =
      (later : Gateway redis W Vector) (req : ChatRequest)
      → chat_at later req w ≡ (w, replayed (record { status_code = 200; body = x }))

  abbrev pub IsReplayed : ChatWorld redis W × ChatReply → Type 1
  IsReplayed (w, answered x) = Replays x w
  IsReplayed (w, streamed frames) =
      (resolved : ResolvedModel) × (b : Body) × (frames ≡ frames_of b)
      × (b.broken ≡ none → Replays (assembled redis W resolved b) w)
  IsReplayed (w, _) = Unit {1}

  stored-Replays :
      (key : String) (x : UnifiedChatResponse) (before w : ChatWorld redis W)
      → caller.idempotency_key ≡ some key
      → w.idempotent ≡ stored_under redis W caller.org_id caller.idempotency_key x before.idempotent
      → Replays x w
  unfolding chat
  stored-Replays key x before w is h later req =
      let k = replay_key redis W caller.org_id key in
      let r : IdempotentRecord = record { status_code = 200; body = x } in
      let here : redis.replays.get (redis.replays.put before.idempotent k r) k ≡ some r =
        redis.replays.get-put before.idempotent k k r
        ∙ ap (λ b. if b then some r else redis.replays.get before.idempotent k) (eq_refl k) in
      let stored : get_idempotent_replay redis W caller.org_id key w ≡ some r =
        ap (λ i. redis.replays.get i k) h
        ∙ ap (λ o. redis.replays.get (stored_under redis W caller.org_id o x before.idempotent) k)
            is
        ∙ here in
      let by =
        by_key redis W Vector later.api later.open_stream later.sleep later.env later.flags caller
          req in
      let or =
        or_replay redis W Vector later.api later.open_stream later.sleep later.env later.flags
          caller req in
      ap (λ o. by o w) is ∙ ap (λ o. or o w) stored

  settled-Replays :
      (g : Gateway redis W Vector) (req : ChatRequest) (key : String) (before : ChatWorld redis W)
      (p : ChatWorld redis W × ChatReply)
      → caller.idempotency_key ≡ some key
      → IsSettled redis W Vector g.api g.open_stream g.sleep g.env g.flags caller req before p
      → IsReplayed p
  settled-Replays g req key before (w, replayed r) is h = tt
  settled-Replays g req key before (w, refused e) is h = tt
  settled-Replays g req key before (w, answered x) is (resolved, to, stored, bill) =
      stored-Replays key x before w is stored
  settled-Replays g req key before (w, streamed frames) is (resolved, to, b, same, settled) = (
    resolved,
    b,
    same,
    λ whole. elim settled [
      | inl (none_broken, stored, bill) ↦
          stored-Replays key (assembled redis W resolved b) before w is stored
      | inr (broken, unbilled) ↦ absurd (broken whole)
    ],
  )
  settled-Replays g req key before (w, failed code body) is h = tt
  settled-Replays g req key before (w, rethrown message) is h = tt

  -- After a request with an idempotency key was answered, with a response or with a whole stream,
  -- every later request of the caller with that key is answered with exactly that response, or the
  -- one assembled from the stream, and changes nothing: no bill, no call, no cache. The later
  -- request, the flags and the environment may differ.
  pub chat_then_chat :
      (g : Gateway redis W Vector) (req : ChatRequest) (key : String) (w : ChatWorld redis W)
      → caller.idempotency_key ≡ some key
      → IsReplayed (chat_at g req w)
  chat_then_chat g req key w is =
      settled-Replays g req key w (chat_at g req w) is
        (chat-IsSettled redis W Vector g.api g.open_stream g.sleep g.env g.flags caller req w)
