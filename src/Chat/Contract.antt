-- ===== src/Chat/Contract.antt =====
-- What every reply of the chat route says about the bill and the stored result.
use cloud_mesh.Common.{
  ◌≡◌, ◌≢◌, refl, String, Bool, true, false, Option, none, some, inl, inr, ◌⊎◌, ap, sym, subst,
  if◌then◌else◌,
}
use cloud_mesh.CircuitBreaker.{Outcome, returned, threw}
use cloud_mesh.Billing.{BudgetStatus, Ledger, LockError, not_acquired, inner, enforce_budget}
use cloud_mesh.Billing.Usage.{record_usage_and_outbox}
use cloud_mesh.Routing.{ResolvedModel}
use cloud_mesh.Routing.Select.{RouteError, RouteDecision, resolve_model_with_fallback}
use cloud_mesh.Chat.{
  Redis, Serving, ChatWorld, ChatRequest, OrgFeatureFlags, UnifiedChatResponse, IdempotentRecord,
  CallFailure, provider_error, service_unavailable, other,
}
use cloud_mesh.Chat.Answer.{
  Caller, ChatReply, replayed, refused, answered, streamed, failed, rethrown, stored_under,
  emit_provider_degraded, Services, serve, finish, answer, get_idempotent_replay,
}
use cloud_mesh.Chat.Hits.{cached_reply, serve_found, serve_fresh}
use cloud_mesh.Chat.Streaming.{Body, frames_of, assembled, settle_stream, finish_stream}
use cloud_mesh.Chat.Route.{
  effective_model_name, warn, count_variant, Setting, resolved_of, routed, within_budget, checked,
  past_replay, by_key, or_replay, chat, answer_stream,
}

in_both :
    {A : Type 0} (b : Bool) (P : A → Type 0) {x y : A}
    → (b ≡ true → P x)
    → (b ≡ false → P y)
    → P (if b then x else y)
in_both true P h k = h refl
in_both false P h k = k refl

abbrev pub status_in :
    {W : Type 0} → W × Outcome (LockError BudgetStatus) BudgetStatus → Option BudgetStatus
status_in (w, returned status) = some status
status_in (w, threw e) = none

module _ (redis : Redis) (W Vector : Type 0) (api : Services redis W Vector)
    (open_stream : ResolvedModel
      → ChatRequest
      → Serving redis W
      → Serving redis W × Outcome CallFailure (Option Body))
    (sleep : redis.locks.Store × Ledger → redis.locks.Store × Ledger) (env : Setting)
    (flags : OrgFeatureFlags) (caller : Caller) (req : ChatRequest) where
  abbrev pub budget_check :
      ChatWorld redis W
      → (redis.locks.Store × Ledger) × Outcome (LockError BudgetStatus) BudgetStatus
  budget_check w =
      enforce_budget redis.locks caller.org_id env.period env.token sleep (w.slots, w.ledger)

  -- The budget as the check finds it, where it is enforced.
  abbrev pub budget_of : ChatWorld redis W → Option BudgetStatus
  budget_of w = if flags.billing_enforcement then status_in (budget_check w) else none

  abbrev pub route_with : ChatWorld redis W → Option BudgetStatus → Outcome RouteError RouteDecision
  route_with w status =
      resolve_model_with_fallback redis.circuits env.registry env.stats flags.routing_preset
        flags.ab_config env.candidates env.parts env.draw w.serving.breakers
        (effective_model_name flags status env.constrained_model req.model)

  -- The model that the request is routed to.
  abbrev pub IsRoutedTo : ResolvedModel → ChatWorld redis W → Type 0
  IsRoutedTo resolved w =
      (d : RouteDecision) × (route_with w (budget_of w) ≡ returned d) × (resolved ≡ resolved_of d)

  abbrev pub IsUnbilled : ChatWorld redis W → ChatWorld redis W → Type 0
  IsUnbilled before after =
      (after.tables.rows ≡ before.tables.rows) × (after.idempotent ≡ before.idempotent)

  -- The caller's organization and key are billed for the response, under its id, its usage and the
  -- name by which the provider knows the model.
  abbrev pub IsBilledFor :
      ResolvedModel → UnifiedChatResponse → ChatWorld redis W → ChatWorld redis W → Type 0
  IsBilledFor resolved x before after =
      after.tables
      ≡ (record_usage_and_outbox
          (record {
            org_id = caller.org_id;
            api_key_id = caller.api_key_id;
            model = resolved.provider_model;
            usage = x.usage;
            request_id = x.id;
          })
          before.tables).0

  -- A response from the cache is the one that it has, and is not billed; any other is.
  abbrev pub IsBilledUnlessHit :
      Option UnifiedChatResponse
      → ResolvedModel
      → UnifiedChatResponse
      → ChatWorld redis W
      → ChatWorld redis W
      → Type 0
  IsBilledUnlessHit none resolved x before after = IsBilledFor resolved x before after
  IsBilledUnlessHit (some hit) resolved x before after = (x ≡ hit) × (after.tables ≡ before.tables)

  abbrev pub IsStoredFor : UnifiedChatResponse → ChatWorld redis W → ChatWorld redis W → Type 0
  IsStoredFor x before after =
      after.idempotent
      ≡ stored_under redis W caller.org_id caller.idempotency_key x before.idempotent

  abbrev pub IsSettled : ChatWorld redis W → ChatWorld redis W × ChatReply → Type 0
  IsSettled before (after, replayed stored) = after ≡ before
  IsSettled before (after, refused e) =
      (after.tables ≡ before.tables)
      × (after.idempotent ≡ before.idempotent)
      × (after.serving ≡ before.serving)
  IsSettled before (after, answered x) =
      (resolved : ResolvedModel) × IsRoutedTo resolved before
      × IsStoredFor x before after
      × IsBilledUnlessHit (cached_reply redis W Vector api flags caller req resolved before)
          resolved x before after
  IsSettled before (after, streamed frames) =
      (resolved : ResolvedModel) × IsRoutedTo resolved before
      × (b : Body) × (frames ≡ frames_of b)
      × (((b.broken ≡ none)
            × IsStoredFor (assembled redis W resolved b) before after
            × IsBilledFor resolved (assembled redis W resolved b) before after)
          ⊎ ((b.broken ≢ none) × IsUnbilled before after))
  IsSettled before (after, failed code body) = IsUnbilled before after
  IsSettled before (after, rethrown message) = IsUnbilled before after

  module _ (resolved : ResolvedModel) where
    finish-IsSettled :
        (w : ChatWorld redis W) (slots : redis.locks.Store) (l : Ledger) (s : Serving redis W)
        (o : Outcome CallFailure (UnifiedChatResponse × Bool))
        → IsRoutedTo resolved w
        → ((x : UnifiedChatResponse)
            → o ≡ returned (x, true)
            → cached_reply redis W Vector api flags caller req resolved w ≡ some x)
        → ((x : UnifiedChatResponse)
            → o ≡ returned (x, false)
            → cached_reply redis W Vector api flags caller req resolved w ≡ none)
        → IsSettled w (
            finish redis W Vector api flags caller resolved req o
              (record w { slots = slots; ledger = l; serving = s }))
    unfolding emit_provider_degraded
    finish-IsSettled w slots l s (returned (x, true)) routed h k = (
      resolved,
      routed,
      refl,
      subst
          (λ c.
            IsBilledUnlessHit c resolved x w
              (finish redis W Vector api flags caller resolved req (returned (x, true))
                (record w { slots = slots; ledger = l; serving = s })).0)
          (sym (h x refl)) (refl, refl),
    )
    finish-IsSettled w slots l s (returned (x, false)) routed h k = (
      resolved,
      routed,
      refl,
      subst
          (λ c.
            IsBilledUnlessHit c resolved x w
              (finish redis W Vector api flags caller resolved req (returned (x, false))
                (record w { slots = slots; ledger = l; serving = s })).0)
          (sym (k x refl)) refl,
    )
    finish-IsSettled w slots l s (threw (provider_error m p)) routed h k = (refl, refl)
    finish-IsSettled w slots l s (threw (service_unavailable m)) routed h k = (refl, refl)
    finish-IsSettled w slots l s (threw (other m)) routed h k = (refl, refl)

    settle_stream-IsSettled :
        (w : ChatWorld redis W) (slots : redis.locks.Store) (l : Ledger) (s : Serving redis W)
        (b : Body) (broken : Option String)
        → IsRoutedTo resolved w
        → b.broken ≡ broken
        → IsSettled w (
          settle_stream redis W caller resolved
              (assembled redis W resolved b)
              broken
              (record w { slots = slots; ledger = l; serving = s }),
          streamed (frames_of b),
        )
    settle_stream-IsSettled w slots l s b none routed h =
        (resolved, routed, b, refl, inl (h, refl, refl))
    settle_stream-IsSettled w slots l s b (some m) routed h =
        (resolved, routed, b, refl, inr ((λ k. cc), (refl, refl)))

    finish_stream-IsSettled :
        (w : ChatWorld redis W) (slots : redis.locks.Store) (l : Ledger) (s : Serving redis W)
        (o : Outcome CallFailure (Option Body))
        → IsRoutedTo resolved w
        → IsSettled w (
            finish_stream redis W caller resolved o
              (record w { slots = slots; ledger = l; serving = s }))
    finish_stream-IsSettled w slots l s (threw (provider_error m p)) routed = (refl, refl)
    finish_stream-IsSettled w slots l s (threw (service_unavailable m)) routed = (refl, refl)
    finish_stream-IsSettled w slots l s (threw (other m)) routed = (refl, refl)
    finish_stream-IsSettled w slots l s (returned none) routed = (refl, refl)
    finish_stream-IsSettled w slots l s (returned (some b)) routed =
        settle_stream-IsSettled w slots l s b b.broken routed refl

    answer-IsSettled :
        (w : ChatWorld redis W) (slots : redis.locks.Store) (l : Ledger)
        (counters : redis.counts.Store)
        → IsRoutedTo resolved w
        → IsSettled w (
            answer redis W Vector api flags caller resolved req (record w {
              slots = slots;
              ledger = l;
              serving = record w.serving { counters = counters };
            }))
    unfolding answer
    answer-IsSettled w slots l counters routed =
        let served =
          serve redis W Vector api flags caller resolved req
            (record w.serving { counters = counters }) in
        finish-IsSettled w slots l served.0 served.1 routed
          (serve_found redis W Vector api flags caller req resolved w counters)
          (serve_fresh redis W Vector api flags caller req resolved w counters)

    answer_stream-IsSettled :
        (w : ChatWorld redis W) (slots : redis.locks.Store) (l : Ledger)
        (counters : redis.counts.Store)
        → IsRoutedTo resolved w
        → IsSettled w (
            answer_stream redis W Vector api open_stream sleep env flags caller req resolved
              (record w {
                slots = slots;
                ledger = l;
                serving = record w.serving { counters = counters };
              }))
    unfolding answer_stream
    answer_stream-IsSettled w slots l counters routed =
        let opened = open_stream resolved req (record w.serving { counters = counters }) in
        finish_stream-IsSettled w slots l opened.0 opened.1 routed

  routed-IsSettled :
      (w : ChatWorld redis W) (slots : redis.locks.Store) (l : Ledger)
      (status : Option BudgetStatus) (o : Outcome RouteError RouteDecision)
      → route_with w (budget_of w) ≡ o
      → IsSettled w (
          routed redis W Vector api open_stream sleep env flags caller req status o
            (record w { slots = slots; ledger = l }))
  routed-IsSettled w slots l status (threw e) is = (refl, refl, refl)
  routed-IsSettled w slots l status (returned d) is =
      let l' = warn redis W Vector status l in
      let counters = count_variant redis W Vector caller.org_id d w.serving.counters in
      let to : IsRoutedTo (resolved_of d) w = (d, is, refl) in
      in_both req.stream (IsSettled w)
        (λ on. answer_stream-IsSettled (resolved_of d) w slots l' counters to)
        (λ off. answer-IsSettled (resolved_of d) w slots l' counters to)

  within_budget-IsSettled :
      (w : ChatWorld redis W) (slots : redis.locks.Store) (l : Ledger)
      (status : Option BudgetStatus)
      → budget_of w ≡ status
      → IsSettled w (
          within_budget redis W Vector api open_stream sleep env flags caller req status
            (record w { slots = slots; ledger = l }))
  unfolding within_budget
  within_budget-IsSettled w slots l status is =
      routed-IsSettled w slots l status (route_with w status) (ap (route_with w) is)

  checked-IsSettled :
      (w : ChatWorld redis W)
      (o : (redis.locks.Store × Ledger) × Outcome (LockError BudgetStatus) BudgetStatus)
      → budget_of w ≡ status_in o
      → IsSettled w (checked redis W Vector api open_stream sleep env flags caller req o w)
  checked-IsSettled w ((slots, l), returned status) is =
      within_budget-IsSettled w slots l (some status) is
  checked-IsSettled w ((slots, l), threw (inner status)) is = (refl, refl, refl)
  checked-IsSettled w ((slots, l), threw (not_acquired key)) is = (refl, refl, refl)

  past_replay-IsSettled :
      (w : ChatWorld redis W)
      → IsSettled w (past_replay redis W Vector api open_stream sleep env flags caller req w)
  unfolding past_replay
  past_replay-IsSettled w =
      let by_flag = λ (b : Bool). if b then status_in (budget_check w) else none in
      in_both flags.billing_enforcement (IsSettled w)
        (λ on. checked-IsSettled w (budget_check w) (ap by_flag on))
        (λ off. within_budget-IsSettled w w.slots w.ledger none (ap by_flag off))

  or_replay-IsSettled :
      (w : ChatWorld redis W) (o : Option IdempotentRecord)
      → IsSettled w (or_replay redis W Vector api open_stream sleep env flags caller req o w)
  or_replay-IsSettled w none = past_replay-IsSettled w
  or_replay-IsSettled w (some stored) = refl

  by_key-IsSettled :
      (w : ChatWorld redis W) (key : Option String)
      → IsSettled w (by_key redis W Vector api open_stream sleep env flags caller req key w)
  by_key-IsSettled w none = past_replay-IsSettled w
  by_key-IsSettled w (some key) =
      or_replay-IsSettled w (get_idempotent_replay redis W caller.org_id key w)

  pub chat-IsSettled :
      (w : ChatWorld redis W)
      → IsSettled w (chat redis W Vector api open_stream sleep env flags caller req w)
  unfolding chat
  chat-IsSettled w = by_key-IsSettled w caller.idempotency_key
