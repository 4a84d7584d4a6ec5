-- ===== src/Events/Tests.antt =====
-- Messages and runs of the subscribers, and their theorems at concrete inputs.
use cloud_mesh.Common.{ℕ, ◌≡◌, refl, String, true, false, none, some, List, [], ◌∷◌, All}
use cloud_mesh.Common.KeyValue.{memory, blank}
use cloud_mesh.Common.Unique.{IsDistinct}
use cloud_mesh.Tenant.{is_uuid, with_tenant}
use cloud_mesh.Json.{JsonValue, text, number, object, no_fields, field}
use cloud_mesh.Outbox.{OutboxRow, poll_rows, poll_outbox}
use cloud_mesh.Outbox.Poll.{polls}
use cloud_mesh.Events.{parse_event, parse_envelope, parse_object}
use cloud_mesh.Events.Bus.{Published, publish_event, handle_message, naked}
use cloud_mesh.Events.Subscribers.{
  UsageRecordedEvent, audit_key, audit_handler, analytics_handler, get_daily_analytics, parse_usage,
}
use cloud_mesh.Events.Audit.{Delivery, deliver, deliver_all}
use cloud_mesh.Events.AuditOnce.{IsAudited, IsLogged, audit_once}
use cloud_mesh.Events.Analytics.{count_all, add_all, get_daily_analytics_sums}
use cloud_mesh.Events.JetStream.{deduped}
use cloud_mesh.Events.Carried.{publish_row}
use cloud_mesh.Events.Delivery.{fine}

abbrev acme : String
acme = "11111111-2222-4333-8444-555555555555"

abbrev job_done : JsonValue
job_done = object (field "orgId" (text acme) (field "jobId" (text "j1") no_fields))

abbrev message : String → String → JsonValue
message id event_type = (publish_event event_type job_done id "2026-01-01T00:00:00Z").body

abbrev usage : JsonValue
usage = object (
    field "orgId" (text acme) (
      field "apiKeyId" (text acme) (
        field "model" (text "gpt-4o") (
          field "promptTokens" (number 12_000_000) (
            field "completionTokens" (number 3_000_000)
              (field "costUsd" (number 250) (field "requestId" (text "r1") no_fields)))))))

abbrev usage_message : JsonValue
usage_message = (publish_event "usage.recorded" usage "e9" "2026-01-01T00:00:00Z").body

abbrev twice_and_a_failure : List Delivery
twice_and_a_failure =
    record { raw = some (message "e1" "job.completed"); fault = some "database is down" }
    ∷ fine (message "e1" "job.completed")
    ∷ record { raw = none; fault = none }
    ∷ fine (message "e1" "job.completed")
    ∷ []

one_row :
    deliver_all (λ s. true) twice_and_a_failure []
    ≡ record { org_id = acme; event_id = "e1"; event_type = "job.completed"; payload = job_done }
      ∷ []
unfolding deliver_all deliver handle_message parse_event parse_envelope audit_handler with_tenant
    is_uuid publish_event
one_row = refl

-- A message that is not what its subject says is not terminated by the analytics subscriber: the
-- envelope's type has no schema, and the handler's own check throws another error.
mislabelled :
    (handle_message
      (λ s. true)
      (analytics_handler (memory ℕ) (λ s. true) none "2026-01-01")
      (some (message "e1" "job.completed"))
      blank).1
    ≡ naked
unfolding handle_message parse_event parse_envelope analytics_handler parse_usage parse_object
    publish_event
mislabelled = refl

counted_usage :
    get_daily_analytics
      (memory ℕ)
      acme
      "2026-01-01"
      (handle_message
        (λ s. true)
        (analytics_handler (memory ℕ) (λ s. true) none "2026-01-01")
        (some usage_message)
        blank).0
    ≡ record { requests = 1; tokens = 15; cost_micros = 250 }
unfolding handle_message parse_event parse_envelope analytics_handler parse_usage parse_object
    get_daily_analytics publish_event
counted_usage = refl

audit_once_example :
    IsDistinct audit_key (deliver_all (λ s. true) twice_and_a_failure [])
    × All
        (IsAudited (λ s. true) (deliver_all (λ s. true) twice_and_a_failure []))
        twice_and_a_failure
    × IsLogged (λ s. true) twice_and_a_failure [] (deliver_all (λ s. true) twice_and_a_failure [])
    × (deliver_all (λ s. true) twice_and_a_failure (deliver_all (λ s. true) twice_and_a_failure [])
        ≡ deliver_all (λ s. true) twice_and_a_failure [])
audit_once_example = audit_once (λ s. true) twice_and_a_failure [] tt

abbrev usage_event_of : String → ℕ → UsageRecordedEvent
usage_event_of org_id tokens = record {
  org_id = org_id;
  prompt_tokens = tokens;
  completion_tokens = 1;
  cost_micros = 7;
  request_id = "r";
}

abbrev other_org : String
other_org = "99999999-2222-4333-8444-555555555555"

abbrev mixed : List (String × UsageRecordedEvent)
mixed =
    ("2026-01-01", usage_event_of acme 5)
    ∷ ("2026-01-01", usage_event_of other_org 6)
    ∷ ("2026-01-02", usage_event_of acme 7)
    ∷ ("2026-01-01", usage_event_of acme 8)
    ∷ []

get_daily_analytics_sums_example :
    get_daily_analytics (memory ℕ) acme "2026-01-01" (count_all (memory ℕ) mixed blank)
    ≡ add_all acme "2026-01-01" mixed (get_daily_analytics (memory ℕ) acme "2026-01-01" blank)
get_daily_analytics_sums_example =
    get_daily_analytics_sums (memory ℕ) mixed acme "2026-01-01" blank
      ((refl, refl), ((refl, refl), ((refl, refl), ((refl, refl), tt)))) (refl, refl)

abbrev outbox : List OutboxRow
outbox =
    record { id = "e1"; event_type = "job.completed"; payload = "..."; published_at = none } ∷ []

abbrev decode : String → JsonValue
decode payload = job_done

abbrev clock : List Published → String
clock w = "2026-01-01T00:00:00Z"

abbrev table : String → String × String
table id = ("job.completed", "...")

-- The acknowledgement of the first attempt is lost, so that the event is published a second time.
published_twice :
    (polls (publish_row (deduped false) decode clock table) 50 (7 ∷ []) (outbox, [])).0 ≡ outbox
unfolding polls poll_outbox poll_rows publish_row
published_twice = refl
