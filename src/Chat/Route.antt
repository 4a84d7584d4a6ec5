-- ===== src/Chat/Route.antt =====
-- The handler of `POST /v1/chat` after authentication, the rate limit and validation: the stored
-- result of an idempotency key, the budget, the model, and then one of the two ways to answer. The
-- logs and metrics are left out.
use Prim.Native.String.{◌++◌ as ◌+++◌}
use cloud_mesh.Common.{
  ℕ, zero, suc, ◌+◌, ◌*◌, ltb, String, Bool, true, false, ◌&&◌, Option, none, some, List, str_eq,
  if◌then◌else◌,
}
use cloud_mesh.CircuitBreaker.{Outcome, returned, threw}
use cloud_mesh.Billing.{
  BudgetStatus, Ledger, LockError, not_acquired, inner, enforce_budget,
  maybe_publish_budget_warning,
}
use cloud_mesh.Routing.{ResolvedModel, ModelRegistry}
use cloud_mesh.Routing.Select.{
  ProviderStats, RouteError, RouteDecision, explicit, ab_variant, scored,
  resolve_model_with_fallback,
}
use cloud_mesh.Chat.{
  Redis, Serving, ChatWorld, ChatRequest, OrgFeatureFlags, CallFailure, IdempotentRecord,
}
use cloud_mesh.Chat.Cache.{incr}
use cloud_mesh.Chat.Answer.{
  Caller, ChatReply, replayed, refused, budget_exceeded, lock_busy, no_route, get_idempotent_replay,
  Services, answer,
}
use cloud_mesh.Chat.Streaming.{Body, finish_stream}

-- The environment of the gateway and what the request meets: the clock's month, the lock's token
-- and what others do while it sleeps, the random number.
pub record Setting : Type 1 where
  pub registry : ModelRegistry
  pub candidates : List String
  pub constrained_model : Option String
  pub stats : String → ProviderStats
  pub period : String
  pub token : String
  pub parts : ℕ
  pub draw : ℕ

-- `remainingFraction < 0.05`
unfoldable pub is_constrained : BudgetStatus → Bool
is_constrained status = elim status.budget [
  | none ↦ false
  | some zero ↦ true
  | some (suc b) ↦ ltb (20 * suc b) (suc b + 20 * status.spent)
]

abbrev pub constrained_or : Bool → String → Option BudgetStatus → Option String → String
constrained_or auto model (some status) (some cheap) =
    if auto && is_constrained status then cheap else model
constrained_or auto model none cheap = model
constrained_or auto model (some status) none = model

-- Only "auto" may be steered to the model for small budgets.
unfoldable pub effective_model_name :
    OrgFeatureFlags → Option BudgetStatus → Option String → String → String
unfolding is_constrained
effective_model_name flags status cheap model =
    if flags.billing_enforcement
    then constrained_or (str_eq model "auto") model status cheap
    else model

abbrev pub resolved_of : RouteDecision → ResolvedModel
resolved_of (explicit r) = r
resolved_of (ab_variant c w total) = c.resolved
resolved_of (scored best preset considered) = best.candidate.resolved

module _ (redis : Redis) (W Vector : Type 0) where
  abbrev pub Replied : Type 0
  Replied = ChatWorld redis W × ChatReply

  -- `recordAbSelection`
  abbrev pub count_variant : String → RouteDecision → redis.counts.Store → redis.counts.Store
  count_variant org (ab_variant c w total) s =
      incr redis.counts ("routing:ab:" +++ (org +++ (":" +++ c.model))) s
  count_variant org _ s = s

  abbrev pub counted_variant : String → RouteDecision → ChatWorld redis W → ChatWorld redis W
  counted_variant org d world = record world {
    serving = record world.serving { counters = count_variant org d world.serving.counters };
  }

  abbrev pub warn : Option BudgetStatus → Ledger → Ledger
  warn none ledger = ledger
  warn (some status) ledger = maybe_publish_budget_warning status ledger

  abbrev pub warned : Option BudgetStatus → ChatWorld redis W → ChatWorld redis W
  warned status world = record world { ledger = warn status world.ledger }

  module _ (api : Services redis W Vector)
      (open_stream : ResolvedModel
        → ChatRequest
        → Serving redis W
        → Serving redis W × Outcome CallFailure (Option Body))
      (sleep : redis.locks.Store × Ledger → redis.locks.Store × Ledger) (env : Setting)
      (flags : OrgFeatureFlags) (caller : Caller) (req : ChatRequest) where
    unfoldable pub answer_stream : ResolvedModel → ChatWorld redis W → Replied
    answer_stream resolved world =
        let (s, outcome) = open_stream resolved req world.serving in
        finish_stream redis W caller resolved outcome (record world { serving = s })

    abbrev pub routed :
        Option BudgetStatus → Outcome RouteError RouteDecision → ChatWorld redis W → Replied
    routed status (threw e) world = (world, refused (no_route e))
    routed status (returned d) world =
        let ready = warned status (counted_variant caller.org_id d world) in
        if req.stream
        then answer_stream (resolved_of d) ready
        else answer redis W Vector api flags caller (resolved_of d) req ready

    unfoldable pub within_budget : Option BudgetStatus → ChatWorld redis W → Replied
    unfolding answer_stream
    within_budget status world =
        routed status
          (resolve_model_with_fallback redis.circuits env.registry env.stats flags.routing_preset
            flags.ab_config env.candidates env.parts env.draw world.serving.breakers
            (effective_model_name flags status env.constrained_model req.model))
          world

    abbrev pub checked :
        (redis.locks.Store × Ledger) × Outcome (LockError BudgetStatus) BudgetStatus
        → ChatWorld redis W
        → Replied
    checked ((slots, ledger), returned status) world =
        within_budget (some status) (record world { slots = slots; ledger = ledger })
    checked ((slots, ledger), threw (inner status)) world =
        (record world { slots = slots; ledger = ledger }, refused (budget_exceeded status))
    checked ((slots, ledger), threw (not_acquired key)) world =
        (record world { slots = slots; ledger = ledger }, refused (lock_busy key))

    unfoldable pub past_replay : ChatWorld redis W → Replied
    unfolding within_budget
    past_replay world =
        if flags.billing_enforcement
        then checked
            (enforce_budget redis.locks caller.org_id env.period env.token sleep
              (world.slots, world.ledger))
            world
        else within_budget none world

    abbrev pub or_replay : Option IdempotentRecord → ChatWorld redis W → Replied
    or_replay none world = past_replay world
    or_replay (some stored) world = (world, replayed stored)

    abbrev pub by_key : Option String → ChatWorld redis W → Replied
    by_key none world = past_replay world
    by_key (some key) world =
        or_replay (get_idempotent_replay redis W caller.org_id key world) world

    unfoldable pub chat : ChatWorld redis W → Replied
    unfolding past_replay
    chat world = by_key caller.idempotency_key world
