-- ===== src/Billing/Invoices.antt =====
-- However Stripe delivers its events, each counts once, and an invoice has one row.
use cloud_mesh.Common.{
  ◌≡◌, refl, ap, ◌∙◌, String, true, false, Option, none, some, List, [], ◌∷◌, str_eq, All,
  Bool-cases, inl, inr, ◌⊎◌,
}
use cloud_mesh.Common.Unique.{
  has_key, IsDistinct, append-IsDistinct, has_key-in-append, has_key-last, other_way,
}
use cloud_mesh.Tenant.{is_uuid, with_tenant}
use cloud_mesh.CircuitBreaker.{Outcome}
use cloud_mesh.Billing.Stripe.{
  InvoiceStatus, Invoice, StripeInvoiceObject, StripeEvent, Customer, BillingTables,
  WebhookProcessResult, event_status, seen_key, org_of_customer, upsert_invoice, write_invoice,
  for_customer, with_status, mark_seen, process_stripe_webhook_event,
}

abbrev pub invoice_key : Invoice → String
invoice_key row = row.stripe_invoice_id

-- An upsert leaves the other keys, and adds its own.
upsert-has_key :
    (org_id : String) (i : StripeInvoiceObject) (status : InvoiceStatus) (k : String)
    (rows : List Invoice)
    → has_key invoice_key k rows ≡ false
    → str_eq i.id k ≡ false
    → has_key invoice_key k (upsert_invoice org_id i status rows) ≡ false
unfolding upsert_invoice
upsert-has_key org_id i status k [] h other = rw other refl
upsert-has_key org_id i status k (row ∷ rows) h other =
    elim (Bool-cases (str_eq row.stripe_invoice_id k)) [
      | inl same ↦ let e : true ≡ false = rw same at h in cc
      | inr differs ↦
          let h' : has_key invoice_key k rows ≡ false = rw differs at h in
          elim (Bool-cases (str_eq row.stripe_invoice_id i.id)) [
            | inl found ↦ rw (found, differs) h'
            | inr passed ↦ rw (passed, differs) (upsert-has_key org_id i status k rows h' other)
          ]
    ]

upsert-IsDistinct :
    (org_id : String) (i : StripeInvoiceObject) (status : InvoiceStatus) (rows : List Invoice)
    → IsDistinct invoice_key rows
    → IsDistinct invoice_key (upsert_invoice org_id i status rows)
unfolding upsert_invoice
upsert-IsDistinct org_id i status [] d = (refl, tt)
upsert-IsDistinct org_id i status (row ∷ rows) (new, d) =
    elim (Bool-cases (str_eq row.stripe_invoice_id i.id)) [
      | inl found ↦ rw found (new, d)
      | inr passed ↦ rw passed (
        upsert-has_key org_id i status row.stripe_invoice_id rows new
            (other_way row.stripe_invoice_id i.id passed),
        upsert-IsDistinct org_id i status rows d,
      )
    ]

-- No event is noted twice, and no invoice of Stripe's has two rows.
abbrev pub IsSound : BillingTables → Type 0
IsSound t = IsDistinct seen_key t.seen × IsDistinct invoice_key t.invoices

-- After the event was noted, at most one row is written.
abbrev IsApplied : BillingTables → BillingTables × Outcome String WebhookProcessResult → Type 0
IsApplied t (t', outcome) =
    (t'.seen ≡ t.seen)
    × ((t'.invoices ≡ t.invoices)
        ⊎ ((org_id : String) × (i : StripeInvoiceObject) × (status : InvoiceStatus) × (t'.invoices
              ≡ upsert_invoice org_id i status t.invoices)))

write_invoice-IsApplied :
    (fails : Option String) (org_id : String) (i : StripeInvoiceObject) (status : InvoiceStatus)
    (t : BillingTables)
    → IsApplied t (write_invoice fails org_id i status t)
write_invoice-IsApplied (some error) org_id i status t = (refl, inl refl)
write_invoice-IsApplied none org_id i status t = (refl, inr (org_id, i, status, refl))

for_customer-IsApplied :
    (fails : Option String) (owner : Option String) (i : StripeInvoiceObject)
    (status : InvoiceStatus) (t : BillingTables)
    → IsApplied t (for_customer fails owner i status t)
unfolding with_tenant
for_customer-IsApplied fails none i status t = (refl, inl refl)
for_customer-IsApplied fails (some org_id) i status t = elim (Bool-cases (is_uuid org_id)) [
  | inl valid ↦ rw (for_customer, valid) (write_invoice-IsApplied fails org_id i status t)
  | inr invalid ↦ rw (for_customer, invalid) (refl, inl refl)
]

with_status-IsApplied :
    (fails : Option String) (customers : List Customer) (e : StripeEvent)
    (status : Option InvoiceStatus) (t : BillingTables)
    → IsApplied t (with_status fails customers e status t)
with_status-IsApplied fails customers e none t = (refl, inl refl)
with_status-IsApplied fails customers e (some status) t =
    for_customer-IsApplied fails (org_of_customer e.invoice.customer customers) e.invoice status t

applied-IsDistinct :
    (t : BillingTables) (r : BillingTables × Outcome String WebhookProcessResult)
    → IsApplied t r
    → IsDistinct invoice_key t.invoices
    → IsDistinct invoice_key r.0.invoices
applied-IsDistinct t (t', outcome) (seen, inl same) d = rw same d
applied-IsDistinct t (t', outcome) (seen, inr (org_id, i, status, is)) d =
    rw is (upsert-IsDistinct org_id i status t.invoices d)

module _ (customers : List Customer) where
  -- A delivery is an event, and the error that the database throws when the invoice is written.
  unfoldable pub process_all : List (Option String × StripeEvent) → BillingTables → BillingTables
  unfolding process_stripe_webhook_event
  process_all [] t = t
  process_all ((fails, e) ∷ ds) t =
      process_all ds (process_stripe_webhook_event fails customers e t).0

  abbrev pub IsSeen : BillingTables → Option String × StripeEvent → Type 0
  IsSeen t d = has_key seen_key d.1.id t.seen ≡ true

  process-IsSound :
      (fails : Option String) (e : StripeEvent) (t : BillingTables)
      → IsSound t
      → IsSound (process_stripe_webhook_event fails customers e t).0
  unfolding process_stripe_webhook_event
  process-IsSound fails e t (s, i) = elim (Bool-cases (has_key seen_key e.id t.seen)) [
    | inl known ↦ rw known (s, i)
    | inr new ↦
        let applied =
          with_status-IsApplied fails customers e (event_status e.type) (mark_seen e t) in
        rw new (
          rw applied.0 (append-IsDistinct seen_key t.seen _ s new),
          applied-IsDistinct (mark_seen e t)
              (with_status fails customers e (event_status e.type) (mark_seen e t)) applied i,
        )
  ]

  process-IsSeen :
      (fails : Option String) (e : StripeEvent) (t : BillingTables)
      → IsSeen (process_stripe_webhook_event fails customers e t).0 (fails, e)
  unfolding process_stripe_webhook_event
  process-IsSeen fails e t = elim (Bool-cases (has_key seen_key e.id t.seen)) [
    | inl known ↦ rw known known
    | inr new ↦
        let applied =
          with_status-IsApplied fails customers e (event_status e.type) (mark_seen e t) in
        rw new (
          rw applied.0
            (has_key-last seen_key t.seen (record { stripe_event_id = e.id; type = e.type })))
  ]

  process-keeps :
      (fails : Option String) (e : StripeEvent) (k : String) (t : BillingTables)
      → has_key seen_key k t.seen ≡ true
      → has_key seen_key k (process_stripe_webhook_event fails customers e t).0.seen ≡ true
  unfolding process_stripe_webhook_event
  process-keeps fails e k t h = elim (Bool-cases (has_key seen_key e.id t.seen)) [
    | inl known ↦ rw known h
    | inr new ↦
        let applied =
          with_status-IsApplied fails customers e (event_status e.type) (mark_seen e t) in
        rw new (rw applied.0 (has_key-in-append seen_key k t.seen _ h))
  ]

  seen_unchanged :
      (fails : Option String) (e : StripeEvent) (t : BillingTables)
      → IsSeen t (fails, e)
      → (process_stripe_webhook_event fails customers e t).0 ≡ t
  unfolding process_stripe_webhook_event
  seen_unchanged fails e t h = rw h refl

  process_all-keeps :
      (ds : List (Option String × StripeEvent)) (k : String) (t : BillingTables)
      → has_key seen_key k t.seen ≡ true
      → has_key seen_key k (process_all ds t).seen ≡ true
  unfolding process_all
  process_all-keeps [] k t h = h
  process_all-keeps ((fails, e) ∷ ds) k t h =
      process_all-keeps ds k (process_stripe_webhook_event fails customers e t).0
        (process-keeps fails e k t h)

  process_all-IsSeen :
      (ds : List (Option String × StripeEvent)) (t : BillingTables)
      → All (IsSeen (process_all ds t)) ds
  unfolding process_all
  process_all-IsSeen [] t = tt
  process_all-IsSeen ((fails, e) ∷ ds) t = (
    process_all-keeps ds e.id (process_stripe_webhook_event fails customers e t).0
        (process-IsSeen fails e t),
    process_all-IsSeen ds (process_stripe_webhook_event fails customers e t).0,
  )

  process_all_again :
      (ds : List (Option String × StripeEvent)) (t : BillingTables)
      → All (IsSeen t) ds
      → process_all ds t ≡ t
  unfolding process_all
  process_all_again [] t h = refl
  process_all_again ((fails, e) ∷ ds) t (h, hs) =
      ap (process_all ds) (seen_unchanged fails e t h) ∙ process_all_again ds t hs

  process_all-IsSound :
      (ds : List (Option String × StripeEvent)) (t : BillingTables)
      → IsSound t
      → IsSound (process_all ds t)
  unfolding process_all
  process_all-IsSound [] t h = h
  process_all-IsSound ((fails, e) ∷ ds) t h =
      process_all-IsSound ds (process_stripe_webhook_event fails customers e t).0
        (process-IsSound fails e t h)

  -- Whatever events Stripe delivers, how often and in which order, with failures in between: each
  -- delivered event is noted once, an invoice of Stripe's has at most one row, and a second delivery
  -- of any of them, also in another order, changes nothing. The tables are so beforehand, as empty
  -- ones are.
  pub process_all_once :
      (ds again : List (Option String × StripeEvent)) (t : BillingTables)
      → IsSound t
      → All (IsSeen (process_all ds t)) again
      → IsSound (process_all ds t)
        × All (IsSeen (process_all ds t)) ds
        × (process_all again (process_all ds t) ≡ process_all ds t)
  process_all_once ds again t h seen = (
    process_all-IsSound ds t h,
    process_all-IsSeen ds t,
    process_all_again again (process_all ds t) seen,
  )
