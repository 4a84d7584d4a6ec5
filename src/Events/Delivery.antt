-- ===== src/Events/Delivery.antt =====
-- The outbox, the bus and the audit subscriber together.
use cloud_mesh.Common.{◌≡◌, String, Bool, none, some, List, ◌⊎◌}
use cloud_mesh.Json.{JsonValue}
use cloud_mesh.Outbox.{OutboxRow}
use cloud_mesh.Events.JetStream.{Nats}
use cloud_mesh.Events.Subscribers.{AuditRow}
use cloud_mesh.Events.Audit.{Delivery, IsKept, row_of_message}
use cloud_mesh.Events.Carried.{body_of}

-- A delivery of a message that does not fail.
abbrev pub fine : JsonValue → Delivery
fine m = record { raw = some m; fault = none }

module _ (nats : Nats) (decode : String → JsonValue) (clock : nats.World → String)
    (table : String → String × String) (is_zod_uuid : String → Bool) where
  open nats use {World, taken}

  -- The log has the row that the event of an outbox row asks for.
  abbrev pub IsInLog : List AuditRow → OutboxRow → Type 0
  IsInLog log r =
      (r.published_at ≡ none)
      ⊎ ((now : String) × IsKept
            (row_of_message is_zod_uuid (some (body_of nats decode clock table r now))) log)
