-- ===== src/Billing/Stripe.antt =====
-- apps/api/src/modules/billing/service.ts: an organization's invoices, as Stripe's events tell of them. The
-- tables have the rows of all organizations; amounts are cents, and times seconds. `fails` is the error
-- that the database throws at the second write, if it does. Stripe's ids are unique, so that the row
-- that an upsert finds by one is of the same organization, and row-level security hides none.
use Prim.Native.String.{◌++◌ as ◌+++◌}
use cloud_mesh.Common.{
  ℕ, String, Bool, true, false, Option, none, some, List, [], ◌∷◌, ◌++◌, str_eq, get_or,
  if◌then◌else◌,
}
use cloud_mesh.Common.Unique.{has_key}
use cloud_mesh.Tenant.{with_tenant}
use cloud_mesh.CircuitBreaker.{Outcome, returned, threw}
use cloud_mesh.Billing.{Ledger, BudgetStatus, get_budget_status}

pub data InvoiceStatus : Type 0 where
  invoice_pending invoice_paid invoice_failed : InvoiceStatus

pub record Invoice : Type 0 where
  pub org_id : String
  pub stripe_invoice_id : String
  pub period_start : ℕ
  pub period_end : ℕ
  pub amount_cents : ℕ
  pub status : InvoiceStatus

pub record StripeInvoiceObject : Type 0 where
  pub id : String
  pub customer : String
  pub period_start : ℕ
  pub period_end : ℕ
  pub amount_due : Option ℕ
  pub amount_paid : Option ℕ

pub record StripeEvent : Type 0 where
  pub id : String
  pub type : String
  pub invoice : StripeInvoiceObject

pub record SeenEvent : Type 0 where
  pub stripe_event_id : String
  pub type : String

pub record Customer : Type 0 where
  pub org_id : String
  pub stripe_customer_id : String

pub record BillingTables : Type 0 where
  pub seen : List SeenEvent
  pub invoices : List Invoice

pub record WebhookProcessResult : Type 0 where
  pub processed : Bool
  pub reason : Option String

abbrev pub event_status : String → Option InvoiceStatus
event_status type =
    if str_eq type "invoice.created"
    then some invoice_pending
    else if str_eq type "invoice.paid"
    then some invoice_paid
    else if str_eq type "invoice.payment_failed"
    then some invoice_failed
    else none

abbrev pub seen_key : SeenEvent → String
seen_key e = e.stripe_event_id

-- `findFirst` by the customer.
abbrev pub org_of_customer : String → List Customer → Option String
org_of_customer customer [] = none
org_of_customer customer (c ∷ cs) =
    if str_eq c.stripe_customer_id customer then some c.org_id else org_of_customer customer cs

abbrev pub amount_cents : StripeInvoiceObject → ℕ
amount_cents i = elim i.amount_paid [ some n ↦ n | none ↦ get_or i.amount_due 0 ]

abbrev pub new_invoice : String → StripeInvoiceObject → InvoiceStatus → Invoice
new_invoice org_id i status = record {
  org_id = org_id;
  stripe_invoice_id = i.id;
  period_start = i.period_start;
  period_end = i.period_end;
  amount_cents = amount_cents i;
  status = status;
}

abbrev pub updated_invoice : StripeInvoiceObject → InvoiceStatus → Invoice → Invoice
updated_invoice i status row = record row { status = status; amount_cents = amount_cents i }

-- `upsert`, by the unique `stripeInvoiceId`.
unfoldable pub upsert_invoice :
    String → StripeInvoiceObject → InvoiceStatus → List Invoice → List Invoice
upsert_invoice org_id i status [] = new_invoice org_id i status ∷ []
upsert_invoice org_id i status (row ∷ rows) =
    let rest = upsert_invoice org_id i status rows in
    if str_eq row.stripe_invoice_id i.id then updated_invoice i status row ∷ rows else row ∷ rest

abbrev pub not_processed : String → WebhookProcessResult
not_processed reason = record { processed = false; reason = some reason }

abbrev pub write_invoice :
    Option String
    → String
    → StripeInvoiceObject
    → InvoiceStatus
    → BillingTables
    → BillingTables × Outcome String WebhookProcessResult
write_invoice (some error) org_id i status t = (t, threw error)
write_invoice none org_id i status t = (
  record t { invoices = upsert_invoice org_id i status t.invoices },
  returned (record { processed = true; reason = none }),
)

abbrev pub for_customer :
    Option String
    → Option String
    → StripeInvoiceObject
    → InvoiceStatus
    → BillingTables
    → BillingTables × Outcome String WebhookProcessResult
for_customer fails none i status t =
    (t, returned (not_processed ("no organization found for Stripe customer " +++ i.customer)))
for_customer fails (some org_id) i status t =
    with_tenant org_id (write_invoice fails org_id i status) t

abbrev pub with_status :
    Option String
    → List Customer
    → StripeEvent
    → Option InvoiceStatus
    → BillingTables
    → BillingTables × Outcome String WebhookProcessResult
with_status fails customers e none t =
    (t, returned (not_processed ("unhandled event type: " +++ e.type)))
with_status fails customers e (some status) t =
    for_customer fails (org_of_customer e.invoice.customer customers) e.invoice status t

abbrev pub mark_seen : StripeEvent → BillingTables → BillingTables
mark_seen e t = record t { seen = t.seen ++ record { stripe_event_id = e.id; type = e.type } ∷ [] }

-- The insertion, whose conflict is P2002, and then the invoice.
unfoldable pub process_stripe_webhook_event :
    Option String
    → List Customer
    → StripeEvent
    → BillingTables
    → BillingTables × Outcome String WebhookProcessResult
unfolding upsert_invoice with_tenant
process_stripe_webhook_event fails customers e t =
    if has_key seen_key e.id t.seen
    then (t, returned (not_processed "duplicate event (already processed)"))
    else with_status fails customers e (event_status e.type) (mark_seen e t)

unfoldable pub get_org_budget_status : Ledger → BudgetStatus
get_org_budget_status l = get_budget_status l

unfoldable pub update_budget_override : Option ℕ → Ledger → Ledger
update_budget_override override l = record l { override = override }
