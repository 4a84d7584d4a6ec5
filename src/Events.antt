-- ===== src/Events.antt =====
-- packages/events/src/schema.ts: what a message on the bus must look like. Numbers in JSON are
-- millionths, so that a cost is exact. Zod's own test of a UUID is an argument.
pub mod Audit
pub mod AuditOnce
pub mod Analytics
pub mod JetStream
pub mod Carried
pub mod Delivery
pub mod Notify
mod Tests
pub mod Bus
pub mod Subscribers
use Prim.Native.String.{◌++◌ as ◌+++◌}
use cloud_mesh.Common.{
  ℕ, ◌%◌, String, Bool, true, false, ◌&&◌, Option, none, some, List, [], ◌∷◌, leb, ◌==◌, any,
  str_eq, ◌>>=◌, if◌then◌else◌,
}
use cloud_mesh.Tenant.{units}
use cloud_mesh.Json.{
  JsonValue, Fields, null, number, negative, text, boolean, object, no_fields, field, find_field,
}

abbrev pub event_types : List String
event_types = "request.completed" ∷ "usage.recorded" ∷ "budget.warning" ∷ []

unfoldable pub is_known_event_type : String → Bool
is_known_event_type value = any (λ t. str_eq t value) event_types

unfoldable pub subject_for : String → String
subject_for event_type = "cloudmesh." +++ event_type

-- A field of `z.object`: its name, whether it may be missing, and the test of its value.
pub record FieldRule : Type 0 where
  pub name : String
  pub optional : Bool
  pub test : JsonValue → Bool

abbrev pub required : String → (JsonValue → Bool) → FieldRule
required name test = record { name = name; optional = false; test = test }

abbrev pub optional_field : String → (JsonValue → Bool) → FieldRule
optional_field name test = record { name = name; optional = true; test = test }

-- `z.string().min(1).max(high)`.
abbrev pub is_text : ℕ → JsonValue → Bool
is_text high (text s) = leb 1 (units s) && leb (units s) high
is_text high _ = false

-- `z.number().int().nonnegative()`.
abbrev pub is_count : JsonValue → Bool
is_count (number n) = n % 1_000_000 == 0
is_count _ = false

-- `z.number().nonnegative()`.
abbrev pub is_amount : JsonValue → Bool
is_amount (number n) = true
is_amount _ = false

abbrev pub is_number : JsonValue → Bool
is_number (number n) = true
is_number negative = true
is_number _ = false

abbrev pub is_boolean : JsonValue → Bool
is_boolean (boolean b) = true
is_boolean _ = false

-- `.nullable()`.
abbrev pub or_null : (JsonValue → Bool) → JsonValue → Bool
or_null test null = true
or_null test v = test v

abbrev pub keep_field : String → Option JsonValue → Option Fields → Option Fields
keep_field name none rest = rest
keep_field name (some v) none = none
keep_field name (some v) (some fields) = some (field name v fields)

abbrev pub checked_field : FieldRule → Option JsonValue → Option Fields → Option Fields
checked_field rule none rest = if rule.optional then rest else none
checked_field rule (some v) rest = if rule.test v then keep_field rule.name (some v) rest else none

-- `z.object(...).safeParse`: the known fields, in the order of the schema, and no other.
unfoldable pub parse_object : List FieldRule → Fields → Option Fields
parse_object [] given = some no_fields
parse_object (rule ∷ rules) given =
    checked_field rule (find_field rule.name given) (parse_object rules given)

pub record EventEnvelope : Type 0 where
  pub event_id : String
  pub event_type : String
  pub timestamp : String
  pub payload : Option JsonValue

pub record ParsedEvent : Type 0 where
  pub envelope : EventEnvelope
  pub payload : Option JsonValue

-- The text of a field that is long enough and no longer than `high`.
abbrev pub text_within : Option ℕ → Option JsonValue → Option String
text_within (some high) (some (text s)) =
    if leb 1 (units s) && leb (units s) high then some s else none
text_within none (some (text s)) = if leb 1 (units s) then some s else none
text_within _ _ = none

-- `eventEnvelopeSchema.safeParse`, whose `payload` may be anything, or missing.
unfoldable pub parse_envelope : JsonValue → Option EventEnvelope
parse_envelope (object fields) = do
  event_id ← text_within (some 200) (find_field "eventId" fields)
  event_type ← text_within (some 100) (find_field "eventType" fields)
  timestamp ← text_within none (find_field "timestamp" fields)
  some (record {
    event_id = event_id;
    event_type = event_type;
    timestamp = timestamp;
    payload = find_field "payload" fields;
  })
parse_envelope _ = none

module _ (is_zod_uuid : String → Bool) where
  abbrev pub is_uuid_text : JsonValue → Bool
  is_uuid_text (text s) = is_zod_uuid s
  is_uuid_text _ = false

  abbrev pub request_completed_schema : List FieldRule
  request_completed_schema =
      required "orgId" is_uuid_text
      ∷ required "requestId" (is_text 200)
      ∷ required "model" (is_text 200)
      ∷ required "promptTokens" is_count
      ∷ required "completionTokens" is_count
      ∷ required "costUsd" is_amount
      ∷ optional_field "latencyMs" is_count
      ∷ optional_field "cacheHit" is_boolean
      ∷ []

  abbrev pub usage_recorded_schema : List FieldRule
  usage_recorded_schema =
      required "orgId" is_uuid_text
      ∷ required "apiKeyId" is_uuid_text
      ∷ required "model" (is_text 200)
      ∷ required "promptTokens" is_count
      ∷ required "completionTokens" is_count
      ∷ required "costUsd" is_amount
      ∷ required "requestId" (is_text 200)
      ∷ []

  abbrev pub budget_warning_schema : List FieldRule
  budget_warning_schema =
      required "orgId" is_uuid_text
      ∷ required "spentUsd" is_amount
      ∷ required "budgetUsd" (or_null is_amount)
      ∷ required "remainingFraction" is_number
      ∷ []

  abbrev pub payload_schema : String → Option (List FieldRule)
  payload_schema event_type =
      if str_eq event_type "request.completed"
      then some request_completed_schema
      else if str_eq event_type "usage.recorded"
      then some usage_recorded_schema
      else if str_eq event_type "budget.warning"
      then some budget_warning_schema
      else none

  abbrev pub parse_payload : List FieldRule → Option JsonValue → Option JsonValue
  parse_payload schema (some (object fields)) = do
    kept ← parse_object schema fields
    some (object kept)
  parse_payload schema _ = none

  -- A type without a schema lets any payload pass.
  abbrev pub with_payload : EventEnvelope → Option (List FieldRule) → Option ParsedEvent
  with_payload e none = some (record { envelope = e; payload = e.payload })
  with_payload e (some schema) = do
    kept ← parse_payload schema e.payload
    some (record { envelope = e; payload = some kept })

  -- `parseEvent`, where `none` is an InvalidEventError.
  unfoldable pub parse_event : JsonValue → Option ParsedEvent
  unfolding parse_envelope parse_object
  parse_event raw = do e ← parse_envelope raw; with_payload e (payload_schema e.event_type)
