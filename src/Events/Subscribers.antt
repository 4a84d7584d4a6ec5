-- ===== src/Events/Subscribers.antt =====
-- apps/gateway/src/modules/events/subscribers.ts: the analytics, audit and billing subscribers. What
-- fails outside (Redis, the database, Stripe) is an argument: the error that the call throws.
use Prim.Native.String.{◌++◌ as ◌+++◌}
use cloud_mesh.Common.{
  ℕ, ◌+◌, ◌/◌, String, Bool, Option, none, some, List, [], ◌∷◌, ◌++◌, ◌==◌, get_or, str_eq,
  if◌then◌else◌, ◌>>=◌,
}
use cloud_mesh.Common.KeyValue.{KeyValue}
use cloud_mesh.Common.Unique.{has_key}
use cloud_mesh.Tenant.{with_tenant}
use cloud_mesh.CircuitBreaker.{Outcome, returned, threw}
use cloud_mesh.Json.{JsonValue, Fields, null, boolean, number, text, object, get_field}
use cloud_mesh.Events.{EventEnvelope, parse_object, usage_recorded_schema}
use cloud_mesh.Events.Bus.{Handler}

-- `(payload as { orgId?: string }).orgId`: a payload that is missing or null has no fields to read,
-- and a value that is neither empty nor a text is refused by `withTenant`.
pub data OrgId : Type 0 where
  no_object no_org no_text : OrgId
  org : String → OrgId

abbrev pub org_value : JsonValue → OrgId
org_value null = no_org
org_value (text id) = if str_eq id "" then no_org else org id
org_value (boolean b) = if b then no_text else no_org
org_value (number n) = if n == 0 then no_org else no_text
org_value _ = no_text

abbrev pub org_of : Option JsonValue → OrgId
org_of none = no_object
org_of (some null) = no_object
org_of (some (object fields)) = org_value (get_field "orgId" fields)
org_of (some _) = no_org

abbrev pub type_error : String
type_error = "cannot read orgId of null or undefined"

-- What a handler does for the organization of a payload, if it names one.
abbrev pub for_org {ℓ} :
    {S : Type ℓ}
    → OrgId
    → (String → S → S × Outcome String (Unit {0}))
    → S
    → S × Outcome String (Unit {0})
for_org no_object run s = (s, threw type_error)
for_org no_org run s = (s, returned tt)
for_org no_text run s = (s, threw "withTenant: orgId is not a valid UUID")
for_org (org id) run s = run id s

pub record AuditRow : Type 0 where
  pub org_id : String
  pub event_id : String
  pub event_type : String
  pub payload : JsonValue

abbrev pub audit_key : AuditRow → String
audit_key row = row.event_id

-- The insertion, where the table has the rows of all organizations; P2002 is its conflict.
abbrev pub insert_audit :
    Option String → AuditRow → List AuditRow → List AuditRow × Outcome String (Unit {0})
insert_audit (some error) row rows = (rows, threw error)
insert_audit none row rows =
    if has_key audit_key row.event_id rows
    then (rows, returned tt)
    else (rows ++ row ∷ [], returned tt)

abbrev pub audit_row : Option JsonValue → EventEnvelope → String → AuditRow
audit_row payload envelope org_id = record {
  org_id = org_id;
  event_id = envelope.event_id;
  event_type = envelope.event_type;
  payload = get_or payload null;
}

unfoldable pub audit_handler : Option String → Handler (List AuditRow)
unfolding with_tenant
audit_handler fault payload envelope rows =
    for_org (org_of payload)
      (λ org_id. with_tenant org_id (insert_audit fault (audit_row payload envelope org_id))) rows

pub record UsageRecordedEvent : Type 0 where
  pub org_id : String
  pub prompt_tokens : ℕ
  pub completion_tokens : ℕ
  pub cost_micros : ℕ
  pub request_id : String

abbrev pub text_value : JsonValue → String
text_value (text s) = s
text_value _ = ""

abbrev pub millionths : JsonValue → ℕ
millionths (number n) = n
millionths _ = 0

-- The fields of a checked payload that the handlers read; `cost_micros` is
-- `Math.round(event.costUsd * 1_000_000)`, which has nothing to round in millionths.
abbrev pub usage_event : Fields → UsageRecordedEvent
usage_event fields = record {
  org_id = text_value (get_field "orgId" fields);
  prompt_tokens = millionths (get_field "promptTokens" fields) / 1_000_000;
  completion_tokens = millionths (get_field "completionTokens" fields) / 1_000_000;
  cost_micros = millionths (get_field "costUsd" fields);
  request_id = text_value (get_field "requestId" fields);
}

-- `usageRecordedSchema.parse`, whose error is Zod's.
unfoldable pub parse_usage : (String → Bool) → Option JsonValue → Option UsageRecordedEvent
unfolding parse_object
parse_usage is_zod_uuid (some (object fields)) = do
  kept ← parse_object (usage_recorded_schema is_zod_uuid) fields
  some (usage_event kept)
parse_usage is_zod_uuid _ = none

abbrev pub parsed_or_throw :
    {S : Type 0}
    → Option UsageRecordedEvent
    → (UsageRecordedEvent → S → S × Outcome String (Unit {0}))
    → S
    → S × Outcome String (Unit {0})
parsed_or_throw none run s = (s, threw "ZodError")
parsed_or_throw (some e) run s = run e s

abbrev pub total_tokens : UsageRecordedEvent → ℕ
total_tokens e = e.prompt_tokens + e.completion_tokens

abbrev pub analytics_key : String → String → String → String
analytics_key org_id day metric = "analytics:" +++ (org_id +++ (":" +++ (day +++ (":" +++ metric))))

pub record DailyAnalytics : Type 0 where
  pub requests : ℕ
  pub tokens : ℕ
  pub cost_micros : ℕ

module _ (redis : KeyValue ℕ) where
  open redis use {Store, get, put}

  abbrev pub incrby : String → ℕ → Store → Store
  incrby key n s = put s key (get_or (get s key) 0 + n)

  -- The commands of `multi`, which Redis runs all together or not at all.
  abbrev pub count_usage :
      Option String → String → UsageRecordedEvent → Store → Store × Outcome String (Unit {0})
  count_usage (some error) day e s = (s, threw error)
  count_usage none day e s = (
    incrby (analytics_key e.org_id day "cost_micros") e.cost_micros (
        incrby (analytics_key e.org_id day "tokens") (total_tokens e)
          (incrby (analytics_key e.org_id day "requests") 1 s)),
    returned tt,
  )

  unfoldable pub analytics_handler : (String → Bool) → Option String → String → Handler Store
  unfolding parse_usage
  analytics_handler is_zod_uuid fault day payload envelope s =
      parsed_or_throw (parse_usage is_zod_uuid payload) (count_usage fault day) s

  unfoldable pub get_daily_analytics : String → String → Store → DailyAnalytics
  get_daily_analytics org_id day s = record {
    requests = get_or (get s (analytics_key org_id day "requests")) 0;
    tokens = get_or (get s (analytics_key org_id day "tokens")) 0;
    cost_micros = get_or (get s (analytics_key org_id day "cost_micros")) 0;
  }

-- `reportUsage` is injected, or not.
abbrev pub report_to :
    {S : Type 0}
    → Option (String → ℕ → String → S → S × Outcome String (Unit {0}))
    → UsageRecordedEvent
    → S
    → S × Outcome String (Unit {0})
report_to none e s = (s, returned tt)
report_to (some report_usage) e s = report_usage e.org_id (total_tokens e) e.request_id s

unfoldable pub billing_handler :
    {S : Type 0}
    → (String → Bool)
    → Option (String → ℕ → String → S → S × Outcome String (Unit {0}))
    → Handler S
unfolding parse_usage
billing_handler is_zod_uuid report_usage payload envelope s =
    parsed_or_throw (parse_usage is_zod_uuid payload) (report_to report_usage) s
