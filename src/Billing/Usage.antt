-- ===== src/Billing/Usage.antt =====
-- apps/gateway/src/lib/billing.ts: the usage record of a completed response, with its outbox event.
-- The tables have what every organization wrote, since `request_id` is unique among all of them.
use cloud_mesh.Common.{ℕ, String, Bool, true, false, List, [], ◌∷◌, ◌++◌, if◌then◌else◌}
use cloud_mesh.Common.Unique.{has_key}
use cloud_mesh.Billing.Pricing.{UnifiedUsage, compute_cost}

pub record RecordUsageParams : Type 0 where
  pub org_id : String
  pub api_key_id : String
  pub model : String
  pub usage : UnifiedUsage
  pub request_id : String

pub record UsageRow : Type 0 where
  pub params : RecordUsageParams
  pub cost : ℕ

pub data GatewayEvent : Type 0 where
  usage_recorded : UsageRow → GatewayEvent
  provider_degraded : String → String → String → GatewayEvent

pub record UsageTables : Type 0 where
  pub rows : List UsageRow
  pub outbox : List GatewayEvent

pub record RecordUsageResult : Type 0 where
  pub cost : ℕ
  pub recorded : Bool

-- The column with the unique index.
abbrev pub request_key : UsageRow → String
request_key r = r.params.request_id

abbrev pub has_request : String → List UsageRow → Bool
has_request id rows = has_key request_key id rows

abbrev pub row_of : RecordUsageParams → UsageRow
row_of p = record { params = p; cost = compute_cost p.model p.usage }

-- The transaction: the insertion that does nothing on a conflict, and the event if a row went in.
unfoldable pub record_usage_and_outbox :
    RecordUsageParams → UsageTables → UsageTables × RecordUsageResult
record_usage_and_outbox p t =
    if has_request p.request_id t.rows
    then (t, record { cost = compute_cost p.model p.usage; recorded = false })
    else (
      record {
        rows = t.rows ++ row_of p ∷ [];
        outbox = t.outbox ++ usage_recorded (row_of p) ∷ [];
      },
      record { cost = compute_cost p.model p.usage; recorded = true },
    )
