-- ===== src/Webhooks/Targets.antt =====
-- The endpoints that `dispatchWebhookEvent` selects.
use cloud_mesh.Common.{
  ◌≡◌, refl, sym, ◌∙◌, String, Bool, true, false, List, [], ◌∷◌, both-true, ◌&&◌, any, str_eq,
  eq_iff, ◌⊎◌, inl, inr, filter,
}
use cloud_mesh.Webhooks.Dispatch.{WebhookEndpoint, is_target}

-- An endpoint that a dispatch is for.
abbrev pub IsTarget : String → String → WebhookEndpoint → Type 0
IsTarget org_id event_type e =
    (e.org_id ≡ org_id)
    × (e.is_active ≡ true)
    × (any (λ t. str_eq t event_type) e.event_types ≡ true)

-- Exactly the endpoints that a dispatch is for, each as often and in the order as they stand.
abbrev pub AreTargets : String → String → List WebhookEndpoint → List WebhookEndpoint → Type 0
AreTargets org_id event_type [] es = es ≡ []
AreTargets org_id event_type (e ∷ all) es =
    (IsTarget org_id event_type e
      × ((rest : List WebhookEndpoint) × (es ≡ e ∷ rest) × AreTargets org_id event_type all rest))
    ⊎ ((¬ IsTarget org_id event_type e) × AreTargets org_id event_type all es)

is_target-IsTarget :
    (org_id event_type : String) (e : WebhookEndpoint)
    → is_target org_id event_type e ≡ true
    → IsTarget org_id event_type e
is_target-IsTarget org_id event_type e h =
    let (own, more) =
      both-true (str_eq e.org_id org_id)
        (e.is_active && any (λ t. str_eq t event_type) e.event_types) h in
    let (active, subscribed) =
      both-true e.is_active (any (λ t. str_eq t event_type) e.event_types) more in
    ((eq_iff e.org_id org_id).0 own, active, subscribed)

IsTarget-is_target :
    (org_id event_type : String) (e : WebhookEndpoint)
    → IsTarget org_id event_type e
    → is_target org_id event_type e ≡ true
IsTarget-is_target org_id event_type e (own, active, subscribed) =
    rw ((eq_iff e.org_id org_id).1 own, active, subscribed) refl

kept-AreTargets :
    (org_id event_type : String) (e : WebhookEndpoint) (all rest : List WebhookEndpoint) (b : Bool)
    → is_target org_id event_type e ≡ b
    → AreTargets org_id event_type all rest
    → AreTargets org_id event_type (e ∷ all) (elim b [ true ↦ e ∷ rest | false ↦ rest ])
kept-AreTargets org_id event_type e all rest true is h =
    inl (is_target-IsTarget org_id event_type e is, (rest, refl, h))
kept-AreTargets org_id event_type e all rest false is h =
    inr
      (λ k. let same : true ≡ false = sym (IsTarget-is_target org_id event_type e k) ∙ is in cc, h)

pub targets-AreTargets :
    (org_id event_type : String) (all : List WebhookEndpoint)
    → AreTargets org_id event_type all (filter (is_target org_id event_type) all)
targets-AreTargets org_id event_type [] = refl
targets-AreTargets org_id event_type (e ∷ all) =
    kept-AreTargets org_id event_type e all (filter (is_target org_id event_type) all)
      (is_target org_id event_type e) refl (targets-AreTargets org_id event_type all)
