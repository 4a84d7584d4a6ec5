-- ===== src/Billing/Tests.antt =====
-- Runs of the budget check and its lock, and their theorems at concrete inputs.
use cloud_mesh.Common.{List, All, ◌+◌, ◌*◌, ◌≤◌, ◌≡◌, refl, String, none, some, [], ◌∷◌, arith, ◌⊎◌}
use cloud_mesh.Common.KeyValue.{KeyValue, memory, blank}
use cloud_mesh.CircuitBreaker.{threw}
use cloud_mesh.Common.{Option, map, max}
use cloud_mesh.Tenant.{is_uuid, with_tenant}
use cloud_mesh.Billing.Stripe.{
  invoice_pending, StripeInvoiceObject, StripeEvent, Customer, BillingTables, upsert_invoice,
  process_stripe_webhook_event,
}
use cloud_mesh.Billing.Invoices.{IsSound, IsSeen, process_all, process_all_once}
use cloud_mesh.Billing.{
  inner, Ledger, budget_warning, set_nx, lock_loop, with_distributed_lock, get_budget_status,
  is_exhausted, is_nearly_spent, check_budget, enforce_budget, locked_check,
  maybe_publish_budget_warning,
}
use cloud_mesh.Billing.Lock.{Ran, Refused, with_distributed_lock_contract}
use cloud_mesh.Billing.Usage.{RecordUsageParams, UsageTables}
use cloud_mesh.Billing.Once.{IsConsistent, IsBilled, record_all, record_all_once}
use cloud_mesh.Billing.Budget.{
  RequestEvent, checks, bills, bills_unchecked, traffic_step, traffic_run, overspend_bound,
}

abbrev redis : KeyValue String
redis = memory String

-- 95 of a budget of 100.
abbrev ledger : Ledger
ledger = record { override = none; plan_budget = some 100; spent = 95; outbox = [] }

abbrev spent_out : Ledger
spent_out = record ledger { spent = 100 }

abbrev stays : {A : Type 0} → A → A
stays w = w

-- The organization's own budget of zero is a budget, and so is used up from the start.
own_zero_refuses :
    (check_budget (record { override = some 0; plan_budget = some 100; spent = 0; outbox = [] })).1
    ≡ threw (record { spent = 0; budget = some 0 })
unfolding check_budget get_budget_status is_exhausted
own_zero_refuses = refl

nearly_spent_warns :
    (maybe_publish_budget_warning (get_budget_status ledger) ledger).outbox
    ≡ budget_warning (record { spent = 95; budget = some 100 }) ∷ []
unfolding maybe_publish_budget_warning get_budget_status is_nearly_spent
nearly_spent_warns = refl

exhausted_refuses :
    (enforce_budget redis "acme" "2026-07" "t1" stays (blank, spent_out)).1
    ≡ threw (inner (record { spent = 100; budget = some 100 }))
unfolding enforce_budget with_distributed_lock lock_loop set_nx check_budget get_budget_status
    is_exhausted
exhausted_refuses = refl

with_distributed_lock_contract_example :
    Ran redis "billing:lock:acme" "t1"
      (locked_check redis)
      (with_distributed_lock redis "acme" "t1" 3 (locked_check redis) stays (blank, ledger))
    ⊎ Refused redis "billing:lock:acme"
        (with_distributed_lock redis "acme" "t1" 3 (locked_check redis) stays (blank, ledger))
with_distributed_lock_contract_example =
    with_distributed_lock_contract redis "acme" "t1" 3 (locked_check redis) stays (blank, ledger)

abbrev traffic : List RequestEvent
traffic = checks ∷ checks ∷ bills 7 ∷ bills_unchecked 4 ∷ checks ∷ bills 9 ∷ []

overspend_bound_example :
    (traffic_run traffic (record { ledger = ledger; in_flight = 0 })).ledger.spent
    ≤ max 95 (99 + 2 * 10) + 4
unfolding traffic_step check_budget get_budget_status is_exhausted
overspend_bound_example = overspend_bound 100 2 10 traffic ledger refl (
  omega arith,
  (
    omega arith,
    ((omega arith, omega arith), (tt, (omega arith, ((omega arith, omega arith), tt)))),
  ),
)

abbrev answered : RecordUsageParams
answered = record {
  org_id = "acme";
  api_key_id = "key-1";
  model = "gpt-4o-mini";
  usage = record { prompt_tokens = 1000; completion_tokens = 500 };
  request_id = "chat-1";
}

-- A redelivery, and another response.
abbrev deliveries : List RecordUsageParams
deliveries = answered ∷ answered ∷ record answered { request_id = "chat-2" } ∷ []

abbrev no_usage : UsageTables
no_usage = record { rows = []; outbox = [] }

record_all_once_example :
    IsConsistent (record_all deliveries no_usage)
    × All (IsBilled (record_all deliveries no_usage)) deliveries
    × (record_all deliveries (record_all deliveries no_usage) ≡ record_all deliveries no_usage)
record_all_once_example = record_all_once deliveries no_usage (refl, tt)

abbrev stripe_invoice : StripeInvoiceObject
stripe_invoice = record {
  id = "in_1";
  customer = "cus_1";
  period_start = 0;
  period_end = 1;
  amount_due = some 4900;
  amount_paid = some 0;
}

abbrev customers : List Customer
customers =
    record { org_id = "11111111-2222-4333-8444-555555555555"; stripe_customer_id = "cus_1" } ∷ []

abbrev stripe_event : String → String → StripeInvoiceObject → StripeEvent
stripe_event id type invoice = record { id = id; type = type; invoice = invoice }

abbrev paid_event : StripeEvent
paid_event = stripe_event "evt_2" "invoice.paid" (record stripe_invoice { amount_paid = some 4900 })

abbrev created_event : StripeEvent
created_event = stripe_event "evt_1" "invoice.created" stripe_invoice

abbrev no_invoices : BillingTables
no_invoices = record { seen = []; invoices = [] }

-- An unpaid invoice has nothing paid, and so its amount is recorded as nothing.
nothing_due :
    map
      (λ i. i.amount_cents)
      (process_all customers ((none, created_event) ∷ []) no_invoices).invoices
    ≡ 0 ∷ []
unfolding process_all process_stripe_webhook_event upsert_invoice with_tenant is_uuid
nothing_due = refl

-- The event of its creation, delivered late, makes a paid invoice pending again.
late_creation :
    map
      (λ i. i.status)
      (process_all customers ((none, paid_event) ∷ (none, created_event) ∷ []) no_invoices).invoices
    ≡ invoice_pending ∷ []
unfolding process_all process_stripe_webhook_event upsert_invoice with_tenant is_uuid
late_creation = refl

abbrev stripe_deliveries : List (Option String × StripeEvent)
stripe_deliveries = (none, created_event) ∷ (some "down", paid_event) ∷ (none, created_event) ∷ []

process_all_once_example :
    IsSound (process_all customers stripe_deliveries no_invoices)
    × All (IsSeen customers (process_all customers stripe_deliveries no_invoices)) stripe_deliveries
    × (process_all customers
          ((none, paid_event) ∷ [])
          (process_all customers stripe_deliveries no_invoices)
        ≡ process_all customers stripe_deliveries no_invoices)
unfolding process_all process_stripe_webhook_event upsert_invoice with_tenant is_uuid
process_all_once_example =
    process_all_once customers stripe_deliveries ((none, paid_event) ∷ []) no_invoices (tt, tt)
      (refl, tt)
