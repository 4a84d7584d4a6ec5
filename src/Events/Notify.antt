-- ===== src/Events/Notify.antt =====
-- apps/gateway/src/modules/events/subscribers.ts: the subscribers that pass events on, to an organization's
-- endpoints and to its owner. How a template prints a value, and the mail service, are arguments.
use Prim.Native.String.{◌++◌ as ◌+++◌}
use cloud_mesh.Common.{
  ℕ, String, Bool, Option, none, some, List, [], ◌∷◌, get_or, str_eq, if◌then◌else◌,
}
use cloud_mesh.Tenant.{with_tenant}
use cloud_mesh.CircuitBreaker.{Outcome, returned, threw}
use cloud_mesh.Json.{JsonValue, Fields, null, object, no_fields, get_field}
use cloud_mesh.Events.{EventEnvelope}
use cloud_mesh.Events.Bus.{Handler}
use cloud_mesh.Events.Subscribers.{org_of, for_org}
use cloud_mesh.Webhooks.Dispatch.{WebhookTables, is_webhook_event_type, dispatch_webhook_event}

abbrev pub ended {ℓ} :
    {S : Type ℓ} {A : Type 0} → S × Outcome String A → S × Outcome String (Unit {0})
ended (s, returned a) = (s, returned tt)
ended (s, threw error) = (s, threw error)

unfoldable pub webhook_handler : (ℕ → Option String) → (ℕ → String) → Handler WebhookTables
unfolding dispatch_webhook_event is_webhook_event_type
webhook_handler fails ids payload envelope t =
    if is_webhook_event_type envelope.event_type
    then for_org (org_of payload)
        (λ org_id t.
          ended
            (dispatch_webhook_event fails ids org_id envelope.event_type (get_or payload null) t))
        t
    else (t, returned tt)

pub record OrgUser : Type 0 where
  pub org_id : String
  pub email : String
  pub is_owner : Bool

pub record Email : Type 0 where
  pub to : String
  pub subject : String
  pub html : String

-- `findFirst` with no order: the first row, as the table gives them.
abbrev pub owner_of : String → List OrgUser → Option OrgUser
owner_of org_id [] = none
owner_of org_id (u ∷ us) =
    let later = owner_of org_id us in
    if str_eq u.org_id org_id then (if u.is_owner then some u else later) else later

abbrev pub fields_of : Option JsonValue → Fields
fields_of (some (object fields)) = fields
fields_of _ = no_fields

-- `show` prints a value in a template, `percent` is `Math.round(Number(...) * 100)`, and `stringify` is
-- `JSON.stringify(payload, null, 2)`.
module _ (show : JsonValue → String) (percent : JsonValue → String)
    (stringify : Option JsonValue → String) where
  abbrev pub email_subject : String → Fields → Option String
  email_subject event_type p =
      if str_eq event_type "job.completed"
      then some ("Job " +++ (show (get_field "jobId" p) +++ " completed"))
      else if str_eq event_type "job.failed"
      then some ("Job " +++ (show (get_field "jobId" p) +++ " failed"))
      else if str_eq event_type "budget.warning"
      then some
          ("Budget warning: " +++ (percent (get_field "remainingFraction" p) +++ "% remaining"))
      else if str_eq event_type "budget.exceeded"
      then some "Monthly budget exceeded"
      else if str_eq event_type "api_key.created"
      then some ("New API key created (" +++ (show (get_field "keyPrefix" p) +++ ")"))
      else if str_eq event_type "api_key.revoked"
      then some ("API key revoked (" +++ (show (get_field "keyPrefix" p) +++ ")"))
      else none

  module _ {S : Type 0} (users : List OrgUser)
      (send_email : Email → S → S × Outcome String (Unit {0})) where
    abbrev pub mail_to : Option OrgUser → Email → S → S × Outcome String (Unit {0})
    mail_to none mail s = (s, returned tt)
    mail_to (some owner) mail s = send_email (record mail { to = owner.email }) s

    abbrev pub mail_about :
        Option String → Option JsonValue → EventEnvelope → S → S × Outcome String (Unit {0})
    mail_about none payload envelope s = (s, returned tt)
    mail_about (some subject) payload envelope s =
        for_org (org_of payload)
          (λ org_id s.
            with_tenant org_id
              (mail_to (owner_of org_id users) (record {
                to = "";
                subject = subject;
                html =
                    "<p>"
                    +++ (envelope.event_type
                        +++ ("</p><pre>" +++ (stringify payload +++ "</pre>")));
              }))
              s)
          s

    unfoldable pub email_handler : Handler S
    unfolding with_tenant
    email_handler payload envelope s =
        mail_about (email_subject envelope.event_type (fields_of payload)) payload envelope s
