-- ===== src/Webhooks/FanOut.antt =====
-- What a dispatch leaves behind, wherever it fails.
use cloud_mesh.Common.{
  ℕ, zero, suc, ◌+◌, ◌*◌, ◌≡◌, refl, sym, ◌∙◌, String, Option, none, some, List, [], ◌∷◌, ◌++◌,
  take, Bool-cases, ◌⊎◌, inl, inr, ap, subst, length,
}
use mathlib.Core.List.{append_assoc, append-nil}
use Prim.Native.String.{◌++◌ as ◌+++◌}
use cloud_mesh.Json.{JsonValue}
use cloud_mesh.Tenant.{is_uuid, with_tenant}
use cloud_mesh.CircuitBreaker.{Outcome, returned, threw}
use cloud_mesh.Webhooks.Targets.{AreTargets, targets-AreTargets}
use cloud_mesh.Webhooks.Ended.{IsEnded, dispatch_webhook_event-IsEnded}
use cloud_mesh.Webhooks.Dispatch.{
  WebhookEndpoint, WebhookEvent, NewDelivery, QueuedDelivery, WebhookTables, DispatchResult,
  delivery_of, job_of, add_delivery, add_job, or_throw, with_count, fan_out, new_event, add_event,
  targets, dispatch_webhook_event,
}

module _ (fails : ℕ → Option String) (ids : ℕ → String) where
  abbrev pub rows_from : WebhookEvent → ℕ → List WebhookEndpoint → List NewDelivery
  rows_from event n [] = []
  rows_from event n (e ∷ es) = delivery_of event (ids (suc n)) e ∷ rows_from event (suc n) es

  abbrev pub jobs_from : WebhookEvent → ℕ → List WebhookEndpoint → List QueuedDelivery
  jobs_from event n [] = []
  jobs_from event n (e ∷ es) = job_of event (ids (suc n)) e ∷ jobs_from event (suc n) es

  -- All the rows and jobs, or those of the first few endpoints with at most one row that has no job.
  abbrev pub IsFanned :
      {A : Type 0}
      → List NewDelivery
      → List QueuedDelivery
      → WebhookTables
      → WebhookTables × Outcome String A
      → Type 0
  IsFanned rows jobs t (t', returned a) =
      (t'.queue ≡ t.queue ++ jobs) × (t'.deliveries ≡ t.deliveries ++ rows)
  IsFanned rows jobs t (t', threw error) =
      (k : ℕ) × (t'.queue ≡ t.queue ++ take k jobs)
      × ((t'.deliveries ≡ t.deliveries ++ take k rows)
          ⊎ (t'.deliveries ≡ t.deliveries ++ take (suc k) rows))

  one_more :
      (d : NewDelivery) (j : QueuedDelivery) (rows : List NewDelivery) (jobs : List QueuedDelivery)
      (t : WebhookTables) (end : WebhookTables × Outcome String (Unit {0}))
      → IsFanned rows jobs (add_job j (add_delivery d t)) end
      → IsFanned (d ∷ rows) (j ∷ jobs) t end
  one_more d j rows jobs t (t', returned a) (q, ds) =
      (q ∙ append_assoc t.queue (j ∷ []) jobs, ds ∙ append_assoc t.deliveries (d ∷ []) rows)
  one_more d j rows jobs t (t', threw error) (k, q, inl ds) = (
    suc k,
    q ∙ append_assoc t.queue (j ∷ []) (take k jobs),
    inl (ds ∙ append_assoc t.deliveries (d ∷ []) (take k rows)),
  )
  one_more d j rows jobs t (t', threw error) (k, q, inr ds) = (
    suc k,
    q ∙ append_assoc t.queue (j ∷ []) (take k jobs),
    inr (ds ∙ append_assoc t.deliveries (d ∷ []) (take (suc k) rows)),
  )

  second_call :
      (event : WebhookEvent) (n : ℕ) (e : WebhookEndpoint) (es : List WebhookEndpoint)
      (t : WebhookTables) (failure : Option String)
      → ((t : WebhookTables)
          → IsFanned
              (rows_from event (suc n) es)
              (jobs_from event (suc n) es)
              t
              (fan_out fails ids event (suc n) es t))
      → IsFanned (rows_from event n (e ∷ es)) (jobs_from event n (e ∷ es)) t (
          or_throw failure
            (λ t. fan_out fails ids event (suc n) es (add_job (job_of event (ids (suc n)) e) t))
            (add_delivery (delivery_of event (ids (suc n)) e) t))
  second_call event n e es t (some error) rest = (zero, sym (append-nil t.queue), inr refl)
  second_call event n e es t none rest =
      one_more (delivery_of event (ids (suc n)) e) (job_of event (ids (suc n)) e)
        (rows_from event (suc n) es) (jobs_from event (suc n) es) t
        (fan_out fails ids event (suc n) es (
          add_job (job_of event (ids (suc n)) e)
            (add_delivery (delivery_of event (ids (suc n)) e) t)))
        (rest _)

  first_call :
      (event : WebhookEvent) (n : ℕ) (e : WebhookEndpoint) (es : List WebhookEndpoint)
      (t : WebhookTables) (failure : Option String)
      (next : WebhookTables → WebhookTables × Outcome String (Unit {0}))
      → ((t : WebhookTables)
          → IsFanned (rows_from event n (e ∷ es)) (jobs_from event n (e ∷ es)) t (next t))
      → IsFanned
          (rows_from event n (e ∷ es))
          (jobs_from event n (e ∷ es))
          t
          (or_throw failure next t)
  first_call event n e es t (some error) next rest =
      (zero, sym (append-nil t.queue), inl (sym (append-nil t.deliveries)))
  first_call event n e es t none next rest = rest t

  fan_out-IsFanned :
      (event : WebhookEvent) (n : ℕ) (es : List WebhookEndpoint) (t : WebhookTables)
      → IsFanned (rows_from event n es) (jobs_from event n es) t (fan_out fails ids event n es t)
  unfolding fan_out
  fan_out-IsFanned event n [] t = (sym (append-nil t.queue), sym (append-nil t.deliveries))
  fan_out-IsFanned event n (e ∷ es) t = first_call event n e es t (fails (2 * n + 2)) _ (λ t.
      second_call event n e es t (fails (2 * n + 3)) (λ t. fan_out-IsFanned event (suc n) es t))

  -- The event's own row is in another table.
  with_event-IsFanned :
      {A : Type 0} (rows : List NewDelivery) (jobs : List QueuedDelivery) (event : WebhookEvent)
      (t : WebhookTables) (end : WebhookTables × Outcome String A)
      → IsFanned rows jobs (add_event fails ids event t) end
      → IsFanned rows jobs t end
  with_event-IsFanned rows jobs event t (t', returned a) h = h
  with_event-IsFanned rows jobs event t (t', threw error) h = h

  nothing-IsFanned :
      (A : Type 0) (rows : List NewDelivery) (jobs : List QueuedDelivery) (error : String)
      (t : WebhookTables)
      → IsFanned {A = A} rows jobs t (t, threw error)
  nothing-IsFanned A rows jobs error t =
      (zero, sym (append-nil t.queue), inl (sym (append-nil t.deliveries)))

  or_throw-IsFanned :
      (rows : List NewDelivery) (jobs : List QueuedDelivery) (t : WebhookTables)
      (failure : Option String) (next : WebhookTables → WebhookTables × Outcome String (Unit {0}))
      → IsFanned rows jobs t (next t)
      → IsFanned rows jobs t (or_throw failure next t)
  or_throw-IsFanned rows jobs t (some error) next h = nothing-IsFanned (Unit {0}) rows jobs error t
  or_throw-IsFanned rows jobs t none next h = h

  with_count-IsFanned :
      {A : Type 0} (rows : List NewDelivery) (jobs : List QueuedDelivery) (t : WebhookTables)
      (end : WebhookTables × Outcome String (Unit {0})) (a : A)
      → IsFanned rows jobs t end
      → IsFanned rows jobs t (with_count end a)
  with_count-IsFanned rows jobs t (t', returned ended) a h = h
  with_count-IsFanned rows jobs t (t', threw error) a h = h

  -- What each endpoint is to be sent: its URL and secret, and the event with its payload.
  abbrev pub wanted_rows : String → ℕ → List WebhookEndpoint → List NewDelivery
  wanted_rows org_id n [] = []
  wanted_rows org_id n (e ∷ es) =
      record {
        id = ids (suc n);
        org_id = org_id;
        webhook_endpoint_id = e.id;
        webhook_event_id = ids 0;
      }
      ∷ wanted_rows org_id (suc n) es

  abbrev pub wanted_jobs :
      String → String → JsonValue → ℕ → List WebhookEndpoint → List QueuedDelivery
  wanted_jobs org_id event_type payload n [] = []
  wanted_jobs org_id event_type payload n (e ∷ es) =
      record {
        job = record {
          delivery_id = ids (suc n);
          org_id = org_id;
          endpoint_id = e.id;
          event_id = ids 0;
          url = e.url;
          secret = e.secret;
          event_type = event_type;
          payload = payload;
        };
        attempts = 6;
      }
      ∷ wanted_jobs org_id event_type payload (suc n) es

  rows_wanted :
      (org_id event_type : String) (payload : JsonValue) (n : ℕ) (es : List WebhookEndpoint)
      → rows_from (new_event fails ids org_id event_type payload) n es ≡ wanted_rows org_id n es
  rows_wanted org_id event_type payload n [] = refl
  rows_wanted org_id event_type payload n (e ∷ es) =
      ap
        (λ rows. delivery_of (new_event fails ids org_id event_type payload) (ids (suc n)) e ∷ rows)
        (rows_wanted org_id event_type payload (suc n) es)

  jobs_wanted :
      (org_id event_type : String) (payload : JsonValue) (n : ℕ) (es : List WebhookEndpoint)
      → jobs_from (new_event fails ids org_id event_type payload) n es
        ≡ wanted_jobs org_id event_type payload n es
  jobs_wanted org_id event_type payload n [] = refl
  jobs_wanted org_id event_type payload n (e ∷ es) =
      ap (λ jobs. job_of (new_event fails ids org_id event_type payload) (ids (suc n)) e ∷ jobs)
        (jobs_wanted org_id event_type payload (suc n) es)

  dispatched-IsFanned :
      (org_id event_type : String) (payload : JsonValue) (t : WebhookTables)
      → let event = new_event fails ids org_id event_type payload in
        IsFanned
          (rows_from event 0 (targets org_id event_type t))
          (jobs_from event 0 (targets org_id event_type t))
          t
          (dispatch_webhook_event fails ids org_id event_type payload t)
  unfolding dispatch_webhook_event with_tenant
  dispatched-IsFanned org_id event_type payload t =
      let event = new_event fails ids org_id event_type payload in
      let es = targets org_id event_type t in
      let rows = rows_from event 0 es in
      let jobs = jobs_from event 0 es in
      elim (Bool-cases (is_uuid org_id)) [
        | inl valid ↦ rw valid (
            with_count-IsFanned rows jobs t _ _ (
              or_throw-IsFanned rows jobs t (fails 0) _ (
                with_event-IsFanned rows jobs event t
                  (or_throw (fails 1) (fan_out fails ids event 0 es) (add_event fails ids event t))
                  (or_throw-IsFanned rows jobs (add_event fails ids event t) (fails 1) _
                    (fan_out-IsFanned event 0 es (add_event fails ids event t))))))
        | inr invalid ↦ rw invalid (
            nothing-IsFanned DispatchResult rows jobs
              ("withTenant: orgId is not a valid UUID: " +++ org_id) t)
      ]

  -- A dispatch is for the active endpoints of the organization that subscribe to the event's type:
  -- all of them and no others, each once and in order. If it returns, each of them has a delivery row
  -- and a job with its own URL and secret, the event's type and payload and six attempts, and the
  -- answer is the event's id and their number. It throws only if the organization's id is no UUID or
  -- a call failed, with the error of that. Wherever it throws, the jobs are those of the first few
  -- of them, and so are the rows, except that one more endpoint may have a row without a job.
  pub dispatch_webhook_event-IsFanned :
      (org_id event_type : String) (payload : JsonValue) (t : WebhookTables)
      → let es = targets org_id event_type t in
        AreTargets org_id event_type t.endpoints es
        × IsFanned
            (wanted_rows org_id 0 es)
            (wanted_jobs org_id event_type payload 0 es)
            t
            (dispatch_webhook_event fails ids org_id event_type payload t)
        × IsEnded fails ids org_id
            (length es)
            (dispatch_webhook_event fails ids org_id event_type payload t).1
  dispatch_webhook_event-IsFanned org_id event_type payload t =
      let es = targets org_id event_type t in
      (
        targets-AreTargets org_id event_type t.endpoints,
        subst
            (λ rows.
              IsFanned rows (wanted_jobs org_id event_type payload 0 es) t
                (dispatch_webhook_event fails ids org_id event_type payload t))
            (rows_wanted org_id event_type payload 0 es)
            (subst
              (λ jobs.
                IsFanned (rows_from (new_event fails ids org_id event_type payload) 0 es) jobs t
                  (dispatch_webhook_event fails ids org_id event_type payload t))
              (jobs_wanted org_id event_type payload 0 es)
              (dispatched-IsFanned org_id event_type payload t)),
        dispatch_webhook_event-IsEnded fails ids org_id event_type payload t,
      )
