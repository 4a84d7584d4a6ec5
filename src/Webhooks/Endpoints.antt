-- ===== src/Webhooks/Endpoints.antt =====
-- packages/webhooks/src/service.ts: an organization's endpoints. The verdict of the guard, the secret
-- and the new row's id are arguments; the table has the endpoints of all organizations, oldest first.
use Prim.Native.String.{◌++◌ as ◌+++◌}
use cloud_mesh.Common.{
  ℕ, String, Bool, true, not, ◌&&◌, List, [], ◌∷◌, ◌++◌, map, filter, str_eq, length, ltb, min,
  take, get_elem?, get_last?, get_or,
}
use cloud_mesh.Tenant.{with_tenant}
use cloud_mesh.CircuitBreaker.{Outcome, returned, threw}
use cloud_mesh.Webhooks.Address.{SsrfCheck, safe, unsafe}
use cloud_mesh.Webhooks.Dispatch.{WebhookEndpoint, NewDelivery}

pub record RegisterWebhookInput : Type 0 where
  pub org_id : String
  pub url : String
  pub event_types : List String

pub record RegisteredWebhook : Type 0 where
  pub id : String
  pub url : String
  pub event_types : List String
  pub secret : String

-- What a later read shows, which has no secret.
pub record ListedWebhook : Type 0 where
  pub id : String
  pub url : String
  pub event_types : List String
  pub is_active : Bool

abbrev pub endpoint_of : RegisterWebhookInput → String → String → WebhookEndpoint
endpoint_of input id secret = record {
  id = id;
  org_id = input.org_id;
  url = input.url;
  secret = secret;
  event_types = input.event_types;
  is_active = true;
}

abbrev pub registered : RegisterWebhookInput → String → String → RegisteredWebhook
registered input id secret = record {
  id = id;
  url = input.url;
  event_types = input.event_types;
  secret = secret;
}

abbrev pub register_checked :
    SsrfCheck
    → RegisterWebhookInput
    → String
    → String
    → List WebhookEndpoint
    → List WebhookEndpoint × Outcome String RegisteredWebhook
register_checked (unsafe reason) input id secret es =
    (es, threw ("Webhook URL failed the SSRF safety check: " +++ reason))
register_checked safe input id secret es =
    with_tenant input.org_id
      (λ es. (es ++ endpoint_of input id secret ∷ [], returned (registered input id secret))) es

-- `check` is `isSafeWebhookTarget`.
unfoldable pub register_webhook_endpoint :
    (String → SsrfCheck)
    → RegisterWebhookInput
    → String
    → String
    → List WebhookEndpoint
    → List WebhookEndpoint × Outcome String RegisteredWebhook
unfolding with_tenant
register_webhook_endpoint check input id secret es =
    register_checked (check input.url) input id secret es

abbrev pub newest_first {ℓ} : {A : Type ℓ} → List A → List A
newest_first [] = []
newest_first (x ∷ xs) = newest_first xs ++ x ∷ []

abbrev pub listed : WebhookEndpoint → ListedWebhook
listed e = record { id = e.id; url = e.url; event_types = e.event_types; is_active = e.is_active }

unfoldable pub list_webhook_endpoints :
    String → List WebhookEndpoint → List WebhookEndpoint × Outcome String (List ListedWebhook)
unfolding with_tenant
list_webhook_endpoints org_id es =
    with_tenant org_id
      (λ es. (es, returned (map listed (newest_first (filter (λ e. str_eq e.org_id org_id) es)))))
      es

abbrev pub is_row : String → String → WebhookEndpoint → Bool
is_row org_id endpoint_id e = str_eq e.id endpoint_id && str_eq e.org_id org_id

unfoldable pub delete_webhook_endpoint :
    String → String → List WebhookEndpoint → List WebhookEndpoint × Outcome String Bool
unfolding with_tenant
delete_webhook_endpoint org_id endpoint_id es =
    with_tenant org_id
      (λ es. (
        filter (λ e. not (is_row org_id endpoint_id e)) es,
        returned (ltb 0 (length (filter (is_row org_id endpoint_id) es))),
      ))
      es

unfoldable pub list_webhook_deliveries :
    String → String → ℕ → List NewDelivery → List NewDelivery × Outcome String (List NewDelivery)
unfolding with_tenant
list_webhook_deliveries org_id endpoint_id limit ds =
    with_tenant org_id
      (λ ds. (
        ds,
        returned (
            take (min limit 200) (
              newest_first (
                filter (λ d. str_eq d.org_id org_id && str_eq d.webhook_endpoint_id endpoint_id)
                  ds))),
      ))
      ds

-- `makeBackoffStrategy`, for a schedule that is not empty.
abbrev pub backoff_strategy : List ℕ → ℕ → ℕ
backoff_strategy schedule attempts_made =
    get_or (get_elem? schedule attempts_made) (get_or (get_last? schedule) 0)
