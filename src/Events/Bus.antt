-- ===== src/Events/Bus.antt =====
-- packages/events/src/bus.ts: what is published, and what a subscriber does with a message. `S` is what
-- its handler changes. NATS delivers a message again if it was neither acknowledged nor terminated.
use cloud_mesh.Common.{String, Bool, Option, none, some}
use cloud_mesh.CircuitBreaker.{Outcome, returned, threw}
use cloud_mesh.Json.{JsonValue, text, object, no_fields, field}
use cloud_mesh.Events.{EventEnvelope, ParsedEvent, subject_for, parse_event}

-- What was published: a subject, a value whose text is the message, and the id that NATS tells
-- copies by.
pub record Published : Type 0 where
  pub subject : String
  pub body : JsonValue
  pub msg_id : String

unfoldable pub publish_event : String → JsonValue → String → String → Published
unfolding subject_for
publish_event event_type payload event_id now = record {
  subject = subject_for event_type;
  body = object (
      field "eventId" (text event_id) (
        field "eventType" (text event_type)
          (field "timestamp" (text now) (field "payload" payload no_fields))));
  msg_id = event_id;
}

pub data Ack : Type 0 where
  acked termed naked : Ack

abbrev pub Handler : Type 0 → Type 0
Handler S = Option JsonValue → EventEnvelope → S → S × Outcome String (Unit {0})

module _ (is_zod_uuid : String → Bool) {S : Type 0} (handler : Handler S) where
  abbrev pub settle_message : S × Outcome String (Unit {0}) → S × Ack
  settle_message (s, returned ended) = (s, acked)
  settle_message (s, threw error) = (s, naked)

  abbrev pub handle_event : Option ParsedEvent → S → S × Ack
  handle_event none s = (s, termed)
  handle_event (some e) s = settle_message (handler e.payload e.envelope s)

  -- One message of the pump; `none` is a text that is no JSON. No handler throws an InvalidEventError.
  unfoldable pub handle_message : Option JsonValue → S → S × Ack
  unfolding parse_event
  handle_message none s = (s, termed)
  handle_message (some raw) s = handle_event (parse_event is_zod_uuid raw) s
