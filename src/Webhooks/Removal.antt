-- ===== src/Webhooks/Removal.antt =====
-- What the removal of an endpoint removes.
use cloud_mesh.Common.{
  ◌≡◌, ◌≢◌, refl, sym, ◌∙◌, String, Bool, true, false, not, List, filter, filter-All, All-filter,
  filter-filter, All, str_eq, eq_iff, Bool-cases, both-true, ◌⊎◌, inl, inr,
}
use cloud_mesh.Tenant.{is_uuid, with_tenant}
use cloud_mesh.Webhooks.Dispatch.{WebhookEndpoint, is_target}
use cloud_mesh.Webhooks.Endpoints.{is_row, delete_webhook_endpoint}

-- The endpoints of the other organizations, as they stand.
abbrev pub others : String → List WebhookEndpoint → List WebhookEndpoint
others org_id es = filter (λ e. not (str_eq e.org_id org_id)) es

negated : (b : Bool) → not b ≡ true → b ≡ false
negated true h = sym h
negated false h = refl

foreign_stays :
    (org_id endpoint_id : String) (e : WebhookEndpoint)
    → not (str_eq e.org_id org_id) ≡ true
    → not (is_row org_id endpoint_id e) ≡ true
foreign_stays org_id endpoint_id e h = elim (Bool-cases (str_eq e.id endpoint_id)) [
  | inl same ↦ rw (is_row, same) h
  | inr other ↦ rw (is_row, other) refl
]

abbrev pub IsAnother : String → String → WebhookEndpoint → Type 0
IsAnother org_id endpoint_id e = (e.id ≢ endpoint_id) ⊎ (e.org_id ≢ org_id)

kept-IsAnother :
    (org_id endpoint_id : String) (e : WebhookEndpoint)
    → not (is_row org_id endpoint_id e) ≡ true
    → IsAnother org_id endpoint_id e
kept-IsAnother org_id endpoint_id e h = elim (Bool-cases (str_eq e.id endpoint_id)) [
  | inr other ↦
      inl (λ same. let t : true ≡ false = sym ((eq_iff e.id endpoint_id).1 same) ∙ other in cc)
  | inl same ↦
      let foreign : str_eq e.org_id org_id ≡ false =
        negated (str_eq e.org_id org_id)
          (let h' : not (str_eq e.org_id org_id) ≡ true = rw (is_row, same) at h in h') in
      inr (λ own. let t : true ≡ false = sym ((eq_iff e.org_id org_id).1 own) ∙ foreign in cc)
]

another_target :
    (org_id endpoint_id event_type : String) (e : WebhookEndpoint)
    → IsAnother org_id endpoint_id e
    → is_target org_id event_type e ≡ true
    → e.id ≢ endpoint_id
another_target org_id endpoint_id event_type e (inl other) h = other
another_target org_id endpoint_id event_type e (inr foreign) h =
    let (own, rest) = both-true (str_eq e.org_id org_id) _ h in
    absurd (foreign ((eq_iff e.org_id org_id).0 own))

-- A removal leaves no endpoint of that id to the organization, so that none is dispatched to
-- afterwards, and it leaves the endpoints of every other organization as they stand, in their order.
pub delete_webhook_endpoint-IsAnother :
    (org_id endpoint_id event_type : String) (es : List WebhookEndpoint)
    → is_uuid org_id ≡ true
    → All (IsAnother org_id endpoint_id) (delete_webhook_endpoint org_id endpoint_id es).0
      × All
          (λ e. e.id ≢ endpoint_id)
          (filter (is_target org_id event_type) (delete_webhook_endpoint org_id endpoint_id es).0)
      × (others org_id (delete_webhook_endpoint org_id endpoint_id es).0 ≡ others org_id es)
unfolding delete_webhook_endpoint with_tenant
delete_webhook_endpoint-IsAnother org_id endpoint_id event_type es valid = rw valid (
  filter-All (λ e. not (is_row org_id endpoint_id e)) (IsAnother org_id endpoint_id) es
      (kept-IsAnother org_id endpoint_id),
  All-filter (is_target org_id event_type) (IsAnother org_id endpoint_id) (λ e. e.id ≢ endpoint_id)
      (filter (λ e. not (is_row org_id endpoint_id e)) es)
      (another_target org_id endpoint_id event_type)
      (filter-All (λ e. not (is_row org_id endpoint_id e)) (IsAnother org_id endpoint_id) es
        (kept-IsAnother org_id endpoint_id)),
  filter-filter (λ e. not (is_row org_id endpoint_id e)) (λ e. not (str_eq e.org_id org_id)) es
      (foreign_stays org_id endpoint_id),
)
