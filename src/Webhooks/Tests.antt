-- ===== src/Webhooks/Tests.antt =====
-- Runs of the webhook deliveries and the address guard, and their theorems at concrete inputs.
use cloud_mesh.Common.{◌≡◌, refl, false, not, none, [], ◌∷◌, arith}
use cloud_mesh.Common.KeyValue.{KeyValue, memory, blank}
use cloud_mesh.Webhooks.{
  responded, Meeting, sent, rejected, attempt_delivery, classify, pending, done, DeliveryRow,
  deliveries_in_turn,
}
use cloud_mesh.Webhooks.Ssrf.{ip, is_safe_ipv4, in_cidr, ipv4_to_int}
use cloud_mesh.Webhooks.Ranges.{is_reserved, is_safe_ipv4-is_reserved}
use cloud_mesh.Webhooks.Delivery.{Stands, deliveries_in_turn-Settled}
use cloud_mesh.Common.{
  ◌≢◌, ℕ, String, Option, some, List, All, filter, str_eq, true, zero, suc, ◌==◌, length,
  if◌then◌else◌,
}
use cloud_mesh.Tenant.{is_uuid, with_tenant}
use cloud_mesh.Json.{null}
use cloud_mesh.Webhooks.Address.{Url, is_safe_ipv6, unwrap_ipv4_mapped, is_safe_webhook_target}
use cloud_mesh.Webhooks.Guard.{IsSafeTarget, is_safe_webhook_target-IsSafeTarget}
use cloud_mesh.Webhooks.Dispatch.{
  WebhookEndpoint, WebhookTables, targets, is_target, fan_out, dispatch_webhook_event,
}
use cloud_mesh.Webhooks.Targets.{AreTargets}
use cloud_mesh.Webhooks.Ended.{IsEnded}
use cloud_mesh.Webhooks.FanOut.{IsFanned, wanted_rows, wanted_jobs, dispatch_webhook_event-IsFanned}
use cloud_mesh.Webhooks.Endpoints.{delete_webhook_endpoint, backoff_strategy}
use cloud_mesh.Webhooks.Removal.{others, IsAnother, delete_webhook_endpoint-IsAnother}
use cloud_mesh.Webhooks.{webhook_retry_schedule_ms}

abbrev db : KeyValue DeliveryRow
db = memory DeliveryRow

abbrev row : DeliveryRow
row = record {
  org_id = "acme";
  status = pending;
  attempts = 0;
  response_status = none;
  response_body = none;
}

abbrev one_delivery : db.Store
one_delivery = db.put blank "d1" row

abbrev down : Meeting
down = sent (responded 503 "busy")

abbrev up : Meeting
up = sent (responded 204 "")

redirect_rejected : (attempt_delivery (sent (responded 302 ""))).outcome ≡ rejected
unfolding attempt_delivery classify
redirect_rejected = refl

metadata_refused : is_safe_ipv4 (ip 169 254 169 254) ≡ false
unfolding is_safe_ipv4 in_cidr ipv4_to_int
metadata_refused = refl

is_safe_ipv4-is_reserved_example : is_safe_ipv4 (ip 172 31 255 255) ≡ not (is_reserved 172 31)
is_safe_ipv4-is_reserved_example = is_safe_ipv4-is_reserved (ip 172 31 255 255) (record {
  a_octet = omega arith;
  b_octet = omega arith;
  c_octet = omega arith;
  d_octet = omega arith;
})

deliveries_in_turn-Settled_example :
    Stands db "acme" "d1" done 2
      (deliveries_in_turn db "acme" "d1" 0 (down ∷ up ∷ down ∷ []) one_delivery)
unfolding attempt_delivery classify
deliveries_in_turn-Settled_example =
    deliveries_in_turn-Settled db "acme" "d1" (down ∷ []) up (down ∷ []) 0 pending 0 one_delivery
      (refl, tt) (λ e. cc) (row, refl, refl, refl)

-- The metadata address in the spelling that URL parsing gives it, and addresses that only look local.
mapped_refused : is_safe_ipv6 "::ffff:a9fe:a9fe" ≡ false
unfolding is_safe_ipv6 unwrap_ipv4_mapped is_safe_ipv4 in_cidr ipv4_to_int
mapped_refused = refl

dotted_refused : is_safe_ipv6 "::ffff:10.1.2.3" ≡ false
unfolding is_safe_ipv6 unwrap_ipv4_mapped is_safe_ipv4 in_cidr ipv4_to_int
dotted_refused = refl

mapped_public : is_safe_ipv6 "::ffff:808:808" ≡ true
unfolding is_safe_ipv6 unwrap_ipv4_mapped is_safe_ipv4 in_cidr ipv4_to_int
mapped_public = refl

multicast_passes : is_safe_ipv6 "ff02::1" ≡ true
unfolding is_safe_ipv6 unwrap_ipv4_mapped
multicast_passes = refl

short_group_refused : is_safe_ipv6 "fd::1" ≡ false
unfolding is_safe_ipv6 unwrap_ipv4_mapped
short_group_refused = refl

-- A name with a public address.
abbrev parse_url : String → Option Url
parse_url raw = some (record { protocol = "https:"; hostname = "hooks.example" })

abbrev is_ip : String → ℕ
is_ip s = if str_eq s "8.8.8.8" then 4 else 0

abbrev resolve : String → Option (List String)
resolve host = some ("8.8.8.8" ∷ [])

is_safe_webhook_target-IsSafeTarget_example :
    IsSafeTarget parse_url is_ip (λ s. s) resolve (parse_url "https://hooks.example/")
is_safe_webhook_target-IsSafeTarget_example =
    is_safe_webhook_target-IsSafeTarget parse_url is_ip (λ s. s) resolve "https://hooks.example/"
      (unfold is_safe_webhook_target is_safe_ipv4 in_cidr ipv4_to_int in refl)

abbrev acme : String
acme = "11111111-2222-4333-8444-555555555555"

abbrev endpoint : String → String → WebhookEndpoint
endpoint id org_id = record {
  id = id;
  org_id = org_id;
  url = "https://hooks.example/";
  secret = "whsec";
  event_types = "job.completed" ∷ [];
  is_active = true;
}

abbrev foreign : String
foreign = "99999999-2222-4333-8444-555555555555"

abbrev endpoints : List WebhookEndpoint
endpoints = endpoint "w1" acme ∷ endpoint "w2" foreign ∷ endpoint "w3" acme ∷ []

abbrev tables : WebhookTables
tables = record { endpoints = endpoints; events = []; deliveries = []; queue = [] }

abbrev ids : ℕ → String
ids zero = "event"
ids (suc n) = "delivery"

-- The second job cannot be queued.
abbrev queue_down : ℕ → Option String
queue_down n = if n == 5 then some "queue is down" else none

dispatch_webhook_event-IsFanned_example :
    AreTargets acme "job.completed" tables.endpoints (targets acme "job.completed" tables)
    × IsFanned queue_down ids
        (wanted_rows queue_down ids acme 0 (targets acme "job.completed" tables))
        (wanted_jobs queue_down ids acme "job.completed" null 0
          (targets acme "job.completed" tables))
        tables
        (dispatch_webhook_event queue_down ids acme "job.completed" null tables)
    × IsEnded queue_down ids acme
        (length (targets acme "job.completed" tables))
        (dispatch_webhook_event queue_down ids acme "job.completed" null tables).1
dispatch_webhook_event-IsFanned_example =
    dispatch_webhook_event-IsFanned queue_down ids acme "job.completed" null tables

abbrev half_failed : WebhookTables
half_failed = (dispatch_webhook_event queue_down ids acme "job.completed" null tables).0

half_failed_rows : (length half_failed.deliveries ≡ 2) × (length half_failed.queue ≡ 1)
unfolding dispatch_webhook_event fan_out with_tenant is_uuid
half_failed_rows = (refl, refl)

-- When the message is delivered again, the first endpoint gets the event a second time.
queued_again :
    length (dispatch_webhook_event (λ n. none) ids acme "job.completed" null half_failed).0.queue
    ≡ 3
unfolding dispatch_webhook_event fan_out with_tenant is_uuid
queued_again = refl

delete_webhook_endpoint-IsAnother_example :
    All (IsAnother acme "w1") (delete_webhook_endpoint acme "w1" endpoints).0
    × All
        (λ e. e.id ≢ "w1")
        (filter (is_target acme "job.completed") (delete_webhook_endpoint acme "w1" endpoints).0)
    × (others acme (delete_webhook_endpoint acme "w1" endpoints).0 ≡ others acme endpoints)
delete_webhook_endpoint-IsAnother_example =
    delete_webhook_endpoint-IsAnother acme "w1" "job.completed" endpoints (unfold is_uuid in refl)

-- What the strategy gives for one failed attempt is the second delay of the schedule.
second_delay : backoff_strategy webhook_retry_schedule_ms 1 ≡ 5000
second_delay = refl
