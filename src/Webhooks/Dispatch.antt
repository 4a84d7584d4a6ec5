-- ===== src/Webhooks/Dispatch.antt =====
-- packages/webhooks/src/service.ts and types.ts: the fan-out of an event to an organization's endpoints.
-- The calls of a dispatch are numbered, and `fails` says which of them throws, and what; a row that
-- the database makes gets its id from `ids`. BullMQ's queue is a list of jobs.
use cloud_mesh.Common.{
  ℕ, suc, ◌+◌, ◌*◌, String, Bool, ◌&&◌, Option, none, some, List, [], ◌∷◌, ◌++◌, filter, any,
  str_eq, length,
}
use cloud_mesh.Tenant.{with_tenant}
use cloud_mesh.Json.{JsonValue}
use cloud_mesh.CircuitBreaker.{Outcome, returned, threw}
use cloud_mesh.Webhooks.{webhook_max_attempts}

abbrev pub webhook_event_types : List String
webhook_event_types =
    "job.completed" ∷ "job.failed" ∷ "budget.warning" ∷ "budget.exceeded" ∷ "api_key.created"
    ∷ "api_key.revoked" ∷ "request.rate_limited" ∷ "provider.degraded" ∷ []

unfoldable pub is_webhook_event_type : String → Bool
is_webhook_event_type value = any (λ t. str_eq t value) webhook_event_types

pub record WebhookEndpoint : Type 0 where
  pub id : String
  pub org_id : String
  pub url : String
  pub secret : String
  pub event_types : List String
  pub is_active : Bool

pub record WebhookEvent : Type 0 where
  pub id : String
  pub org_id : String
  pub event_type : String
  pub payload : JsonValue

-- A delivery as it is made: pending, with no attempt.
pub record NewDelivery : Type 0 where
  pub id : String
  pub org_id : String
  pub webhook_endpoint_id : String
  pub webhook_event_id : String

pub record WebhookJobData : Type 0 where
  pub delivery_id : String
  pub org_id : String
  pub endpoint_id : String
  pub event_id : String
  pub url : String
  pub secret : String
  pub event_type : String
  pub payload : JsonValue

pub record QueuedDelivery : Type 0 where
  pub job : WebhookJobData
  pub attempts : ℕ

pub record WebhookTables : Type 0 where
  pub endpoints : List WebhookEndpoint
  pub events : List WebhookEvent
  pub deliveries : List NewDelivery
  pub queue : List QueuedDelivery

pub record DispatchResult : Type 0 where
  pub event_id : String
  pub delivery_count : ℕ

abbrev pub is_target : String → String → WebhookEndpoint → Bool
is_target org_id event_type e =
    str_eq e.org_id org_id && (e.is_active && any (λ t. str_eq t event_type) e.event_types)

abbrev pub targets : String → String → WebhookTables → List WebhookEndpoint
targets org_id event_type t = filter (is_target org_id event_type) t.endpoints

abbrev pub delivery_of : WebhookEvent → String → WebhookEndpoint → NewDelivery
delivery_of event id e = record {
  id = id;
  org_id = event.org_id;
  webhook_endpoint_id = e.id;
  webhook_event_id = event.id;
}

abbrev pub job_of : WebhookEvent → String → WebhookEndpoint → QueuedDelivery
job_of event id e = record {
  job = record {
    delivery_id = id;
    org_id = event.org_id;
    endpoint_id = e.id;
    event_id = event.id;
    url = e.url;
    secret = e.secret;
    event_type = event.event_type;
    payload = event.payload;
  };
  attempts = webhook_max_attempts;
}

abbrev pub add_delivery : NewDelivery → WebhookTables → WebhookTables
add_delivery d t = record t { deliveries = t.deliveries ++ d ∷ [] }

abbrev pub add_job : QueuedDelivery → WebhookTables → WebhookTables
add_job j t = record t { queue = t.queue ++ j ∷ [] }

-- A call that may throw before it changes anything.
abbrev pub or_throw :
    Option String
    → (WebhookTables → WebhookTables × Outcome String (Unit {0}))
    → WebhookTables
    → WebhookTables × Outcome String (Unit {0})
or_throw (some error) next t = (t, threw error)
or_throw none next t = next t

abbrev pub with_count :
    {A : Type 0} → WebhookTables × Outcome String (Unit {0}) → A → WebhookTables × Outcome String A
with_count (t, returned ended) a = (t, returned a)
with_count (t, threw error) a = (t, threw error)

module _ (fails : ℕ → Option String) (ids : ℕ → String) where
  -- The loop, from the endpoint with number `n` on.
  unfoldable pub fan_out :
      WebhookEvent
      → ℕ
      → List WebhookEndpoint
      → WebhookTables
      → WebhookTables × Outcome String (Unit {0})
  fan_out event n [] t = (t, returned tt)
  fan_out event n (e ∷ es) t =
      or_throw (fails (2 * n + 2))
        (λ t.
          or_throw (fails (2 * n + 3))
            (λ t. fan_out event (suc n) es (add_job (job_of event (ids (suc n)) e) t))
            (add_delivery (delivery_of event (ids (suc n)) e) t))
        t

  abbrev pub new_event : String → String → JsonValue → WebhookEvent
  new_event org_id event_type payload = record {
    id = ids 0;
    org_id = org_id;
    event_type = event_type;
    payload = payload;
  }

  abbrev pub add_event : WebhookEvent → WebhookTables → WebhookTables
  add_event event t = record t { events = t.events ++ event ∷ [] }

  -- Each call runs under the same `withTenant`, which is written once.
  unfoldable pub dispatch_webhook_event :
      String → String → JsonValue → WebhookTables → WebhookTables × Outcome String DispatchResult
  unfolding fan_out with_tenant
  dispatch_webhook_event org_id event_type payload t =
      let event = new_event org_id event_type payload in
      let endpoints = targets org_id event_type t in
      with_tenant org_id
        (λ t.
          with_count
            (or_throw (fails 0)
              (λ t. or_throw (fails 1) (fan_out event 0 endpoints) (add_event event t)) t)
            (record { event_id = event.id; delivery_count = length endpoints }))
        t
