-- ===== src/Events/Audit.antt =====
-- What the audit subscriber does with one message, and what it answers.
use cloud_mesh.Common.{
  ◌≡◌, ◌≢◌, refl, sym, ◌∙◌, String, Bool, true, Option, none, some, List, [], ◌∷◌, Bool-cases, inl,
  inr, if◌then◌else◌, ◌>>=◌,
}
use cloud_mesh.Common.Unique.{has_key, has_key-last}
use cloud_mesh.Tenant.{is_uuid, with_tenant}
use cloud_mesh.CircuitBreaker.{Outcome, returned, threw}
use cloud_mesh.Json.{JsonValue}
use cloud_mesh.Events.{ParsedEvent, parse_event}
use cloud_mesh.Events.Bus.{Ack, acked, termed, naked, settle_message, handle_event, handle_message}
use cloud_mesh.Events.Subscribers.{
  OrgId, no_object, no_org, no_text, org, org_of, for_org, AuditRow, audit_key, audit_row,
  insert_audit, audit_handler,
}

-- A delivery: what `JSON.parse` makes of the message, and the error that the database throws.
pub record Delivery : Type 0 where
  pub raw : Option JsonValue
  pub fault : Option String

-- The row that the message asks for, by itself.
abbrev pub row_for : ParsedEvent → OrgId → Option AuditRow
row_for e (org id) = if is_uuid id then some (audit_row e.payload e.envelope id) else none
row_for e _ = none

abbrev pub row_of_parsed : Option ParsedEvent → Option AuditRow
row_of_parsed none = none
row_of_parsed (some e) = row_for e (org_of e.payload)

abbrev pub IsKept : Option AuditRow → List AuditRow → Type 0
IsKept none rows = Unit {0}
IsKept (some row) rows = has_key audit_key row.event_id rows ≡ true

abbrev pub apply_row : Option String → Option AuditRow → List AuditRow → List AuditRow
apply_row (some error) wanted rows = rows
apply_row none none rows = rows
apply_row none (some row) rows = (insert_audit none row rows).0

-- The log after a message that was acknowledged has the row that it asks for; a message that is
-- terminated is malformed; and neither that one nor a message to come again changes the log.
abbrev pub IsAnswered : Option ParsedEvent → List AuditRow → List AuditRow × Ack → Type 0
IsAnswered p rows (rows', acked) = (p ≢ none) × IsKept (row_of_parsed p) rows'
IsAnswered p rows (rows', termed) = (p ≡ none) × (rows' ≡ rows)
IsAnswered p rows (rows', naked) = (p ≢ none) × (rows' ≡ rows)

module _ (is_zod_uuid : String → Bool) where
  abbrev pub row_of_message : Option JsonValue → Option AuditRow
  row_of_message none = none
  row_of_message (some raw) = row_of_parsed (parse_event is_zod_uuid raw)

  unfoldable pub deliver : Delivery → List AuditRow → List AuditRow × Ack
  unfolding handle_message
  deliver d rows = handle_message is_zod_uuid (audit_handler d.fault) d.raw rows

  unfoldable pub deliver_all : List Delivery → List AuditRow → List AuditRow
  unfolding deliver
  deliver_all [] rows = rows
  deliver_all (d ∷ ds) rows = deliver_all ds (deliver d rows).0

  unwanted : (fault : Option String) (rows : List AuditRow) → apply_row fault none rows ≡ rows
  unwanted none rows = refl
  unwanted (some error) rows = refl

  inserted :
      (fault : Option String) (row : AuditRow) (rows : List AuditRow)
      → (insert_audit fault row rows).0 ≡ apply_row fault (some row) rows
  inserted none row rows = refl
  inserted (some error) row rows = refl

  for_org_step :
      (fault : Option String) (e : ParsedEvent) (o : OrgId) (rows : List AuditRow)
      → (for_org o
          (λ id. with_tenant id (insert_audit fault (audit_row e.payload e.envelope id)))
          rows).0
        ≡ apply_row fault (row_for e o) rows
  unfolding with_tenant
  for_org_step fault e no_object rows = sym (unwanted fault rows)
  for_org_step fault e no_org rows = sym (unwanted fault rows)
  for_org_step fault e no_text rows = sym (unwanted fault rows)
  for_org_step fault e (org id) rows = elim (Bool-cases (is_uuid id)) [
    | inl valid ↦ rw valid (inserted fault (audit_row e.payload e.envelope id) rows)
    | inr invalid ↦ rw invalid (sym (unwanted fault rows))
  ]

  settled :
      (p : List AuditRow × Outcome String (Unit {0}))
      → (settle_message is_zod_uuid (audit_handler none) p).0 ≡ p.0
  settled (rows, returned ended) = refl
  settled (rows, threw error) = refl

  event_step :
      (fault : Option String) (p : Option ParsedEvent) (rows : List AuditRow)
      → (handle_event is_zod_uuid (audit_handler fault) p rows).0
        ≡ apply_row fault (row_of_parsed p) rows
  unfolding audit_handler
  event_step fault none rows = sym (unwanted fault rows)
  event_step fault (some e) rows =
      settled (audit_handler fault e.payload e.envelope rows)
      ∙ for_org_step fault e (org_of e.payload) rows

  message_step :
      (fault : Option String) (raw : Option JsonValue) (rows : List AuditRow)
      → (handle_message is_zod_uuid (audit_handler fault) raw rows).0
        ≡ apply_row fault (row_of_message raw) rows
  unfolding handle_message
  message_step fault none rows = sym (unwanted fault rows)
  message_step fault (some raw) rows = event_step fault (parse_event is_zod_uuid raw) rows

  -- A delivery, as the row that its message asks for.
  pub deliver_step :
      (d : Delivery) (rows : List AuditRow)
      → (deliver d rows).0 ≡ apply_row d.fault (row_of_message d.raw) rows
  unfolding deliver
  deliver_step d rows = message_step d.fault d.raw rows

  abbrev pub parsed_of : Option JsonValue → Option ParsedEvent
  parsed_of raw = raw >>= parse_event is_zod_uuid

  insert_audit-IsAnswered :
      (fault : Option String) (e : ParsedEvent) (id : String) (rows : List AuditRow)
      → is_uuid id ≡ true
      → org_of e.payload ≡ org id
      → IsAnswered (some e) rows (
          settle_message is_zod_uuid
            (audit_handler none)
            (insert_audit fault (audit_row e.payload e.envelope id) rows))
  insert_audit-IsAnswered (some error) e id rows valid is = (λ h. cc, refl)
  insert_audit-IsAnswered none e id rows valid is =
      elim (Bool-cases (has_key audit_key e.envelope.event_id rows)) [
        | inl known ↦
            rw (settle_message, insert_audit, known, is, valid)
              (λ h. cc, rw (insert_audit, known) known)
        | inr new ↦
            rw (settle_message, insert_audit, new, is, valid)
              (
                λ h. cc,
                rw (insert_audit, new)
                    (has_key-last audit_key rows (audit_row e.payload e.envelope id)),
              )
      ]

  for_org-IsAnswered :
      (fault : Option String) (e : ParsedEvent) (o : OrgId) (rows : List AuditRow)
      → org_of e.payload ≡ o
      → IsAnswered (some e) rows (
          settle_message is_zod_uuid (audit_handler none) (
            for_org o
              (λ id. with_tenant id (insert_audit fault (audit_row e.payload e.envelope id)))
              rows))
  unfolding with_tenant
  for_org-IsAnswered fault e no_object rows is = (λ h. cc, refl)
  for_org-IsAnswered fault e no_org rows is = (λ h. cc, rw is tt)
  for_org-IsAnswered fault e no_text rows is = (λ h. cc, refl)
  for_org-IsAnswered fault e (org id) rows is = elim (Bool-cases (is_uuid id)) [
    | inl valid ↦ rw (for_org, valid) (insert_audit-IsAnswered fault e id rows valid is)
    | inr invalid ↦ rw (for_org, invalid) (λ h. cc, refl)
  ]

  event-IsAnswered :
      (fault : Option String) (p : Option ParsedEvent) (rows : List AuditRow)
      → IsAnswered p rows (handle_event is_zod_uuid (audit_handler fault) p rows)
  unfolding audit_handler
  event-IsAnswered fault none rows = (refl, refl)
  event-IsAnswered fault (some e) rows = for_org-IsAnswered fault e (org_of e.payload) rows refl

  message-IsAnswered :
      (fault : Option String) (raw : Option JsonValue) (rows : List AuditRow)
      → IsAnswered (parsed_of raw) rows (handle_message is_zod_uuid (audit_handler fault) raw rows)
  unfolding handle_message
  message-IsAnswered fault none rows = (refl, refl)
  message-IsAnswered fault (some raw) rows =
      event-IsAnswered fault (parse_event is_zod_uuid raw) rows

  -- The audit subscriber terminates exactly the malformed messages, and acknowledges a message only
  -- once the log has its row, if it asks for one; a message that it wants again has changed nothing.
  pub audit_message-IsAnswered :
      (d : Delivery) (rows : List AuditRow) → IsAnswered (parsed_of d.raw) rows (deliver d rows)
  unfolding deliver
  audit_message-IsAnswered d rows = message-IsAnswered d.fault d.raw rows
