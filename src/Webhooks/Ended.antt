-- ===== src/Webhooks/Ended.antt =====
-- What `dispatchWebhookEvent` answers, and why it throws.
use cloud_mesh.Common.{
  ℕ, suc, ◌+◌, ◌*◌, ◌≡◌, refl, String, true, false, Option, none, some, List, [], ◌∷◌, Bool-cases,
  ◌⊎◌, inl, inr, length,
}
use Prim.Native.String.{◌++◌ as ◌+++◌}
use cloud_mesh.Json.{JsonValue}
use cloud_mesh.Tenant.{is_uuid, with_tenant}
use cloud_mesh.CircuitBreaker.{Outcome, returned, threw}
use cloud_mesh.Webhooks.Dispatch.{
  WebhookEndpoint, WebhookEvent, WebhookTables, DispatchResult, or_throw, with_count, fan_out,
  new_event, targets, dispatch_webhook_event,
}

module _ (fails : ℕ → Option String) (ids : ℕ → String) where
  -- An error is the one of a call that failed.
  abbrev pub IsCaused : {A : Type 0} → Outcome String A → Type 0
  IsCaused (returned a) = true ≡ true
  IsCaused (threw error) = (k : ℕ) × (fails k ≡ some error)

  -- The event's id and the number of its endpoints, or an error with its cause.
  abbrev pub IsEnded : String → ℕ → Outcome String DispatchResult → Type 0
  IsEnded org_id n (returned r) = (r.event_id ≡ ids 0) × (r.delivery_count ≡ n)
  IsEnded org_id n (threw error) =
      ((k : ℕ) × (fails k ≡ some error))
      ⊎ ((is_uuid org_id ≡ false) × (error ≡ "withTenant: orgId is not a valid UUID: " +++ org_id))

  or_throw-IsCaused :
      (k : ℕ) (failure : Option String)
      (next : WebhookTables → WebhookTables × Outcome String (Unit {0})) (t : WebhookTables)
      → fails k ≡ failure
      → ((t : WebhookTables) → IsCaused (next t).1)
      → IsCaused (or_throw failure next t).1
  or_throw-IsCaused k none next t is h = h t
  or_throw-IsCaused k (some error) next t is h = (k, is)

  fan_out-IsCaused :
      (event : WebhookEvent) (n : ℕ) (es : List WebhookEndpoint) (t : WebhookTables)
      → IsCaused (fan_out fails ids event n es t).1
  unfolding fan_out
  fan_out-IsCaused event n [] t = refl
  fan_out-IsCaused event n (e ∷ es) t =
      or_throw-IsCaused (2 * n + 2) (fails (2 * n + 2)) _ t refl (λ t.
        or_throw-IsCaused (2 * n + 3) (fails (2 * n + 3)) _ _ refl
          (λ t. fan_out-IsCaused event (suc n) es _))

  with_count-IsEnded :
      (org_id : String) (n : ℕ) (end : WebhookTables × Outcome String (Unit {0}))
      → IsCaused end.1
      → IsEnded org_id n (with_count end (record { event_id = ids 0; delivery_count = n })).1
  with_count-IsEnded org_id n (t, returned ended) h = (refl, refl)
  with_count-IsEnded org_id n (t, threw error) h = inl h

  pub dispatch_webhook_event-IsEnded :
      (org_id event_type : String) (payload : JsonValue) (t : WebhookTables)
      → IsEnded org_id
          (length (targets org_id event_type t))
          (dispatch_webhook_event fails ids org_id event_type payload t).1
  unfolding dispatch_webhook_event with_tenant
  dispatch_webhook_event-IsEnded org_id event_type payload t =
      let event = new_event fails ids org_id event_type payload in
      let es = targets org_id event_type t in
      elim (Bool-cases (is_uuid org_id)) [
        | inl valid ↦ rw valid (
            with_count-IsEnded org_id (length es) _ (
              or_throw-IsCaused 0 (fails 0) _ t refl (λ t.
                or_throw-IsCaused 1 (fails 1) (fan_out fails ids event 0 es) _ refl
                  (fan_out-IsCaused event 0 es))))
        | inr invalid ↦ rw invalid (inr (invalid, refl))
      ]
