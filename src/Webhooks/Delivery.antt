-- ===== src/Webhooks/Delivery.antt =====
-- What becomes of a delivery: delivered, refused for good, or given up after the last attempt.
use cloud_mesh.Common.{
  ℕ, ◌+◌, ◌≡◌, ◌≢◌, refl, String, Bool, true, false, Option, none, some, List, [], ◌∷◌, ◌++◌, arith,
  eq_iff, eq_refl, get_or, length, leb, All, Bool-cases, inl, inr,
}
use cloud_mesh.Common.KeyValue.{KeyValue}
use cloud_mesh.CircuitBreaker.{returned, threw}
use cloud_mesh.Webhooks.{
  retry, DeliveryAttemptResult, Meeting, attempt_delivery, DeliveryStatus, pending, exhausted,
  DeliveryRow, webhook_max_attempts, status_after, attempted_row, visible, record_delivery_attempt,
  settle_delivery, is_terminal, process_delivery, on_delivery_failed, after_delivery,
  deliveries_in_turn, gave_up,
}

module _ (db : KeyValue DeliveryRow) where
  open db use {Store, get, put, get-put}

  -- The organization sees the delivery, with this status and this many attempts.
  abbrev pub Stands : String → String → DeliveryStatus → ℕ → Store → Type 0
  Stands org id status attempts s =
      (r : DeliveryRow) × (visible db org (get s id) ≡ some r)
      × (r.status ≡ status)
      × (r.attempts ≡ attempts)

  visible-some :
      (org : String) (row : Option DeliveryRow) {r : DeliveryRow}
      → visible db org row ≡ some r
      → r.org_id ≡ org
  visible-some org none h = cc
  visible-some org (some r) h = ground (arith, eq_iff r.org_id org)

  visible_own : (org : String) (r : DeliveryRow) → r.org_id ≡ org → visible db org (some r) ≡ some r
  visible_own org r h = ground (arith, eq_iff r.org_id org)

  record_delivery_attempt-Stands :
      (org id : String) (attempt : ℕ) (result : DeliveryAttemptResult) (is_final : Bool)
      (status next : DeliveryStatus) (before : ℕ) (s : Store)
      → status_after result.outcome is_final ≡ next
      → Stands org id status before s
      → Stands org id next attempt (record_delivery_attempt db org id attempt result is_final s)
  unfolding record_delivery_attempt
  record_delivery_attempt-Stands org id attempt result is_final status next before s h
        (r, seen, same, count) =
      let own = visible-some org (get s id) seen in
      let r' = attempted_row attempt result is_final r in
      rw seen (r', rw (get-put s id id r', eq_refl id) (visible_own org r' own), h, refl)

  abbrev pub IsRetried : Meeting → Type 0
  IsRetried m = (attempt_delivery m).outcome ≡ retry

  -- The message of a retried attempt.
  abbrev pub message_of : Meeting → String
  message_of m = get_or (attempt_delivery m).error_message "delivery failed, retrying"

  settle_retry :
      (result : DeliveryAttemptResult) (s : Store)
      → result.outcome ≡ retry
      → settle_delivery db result s
        ≡ (s, threw (get_or result.error_message "delivery failed, retrying"))
  settle_retry result s h = rw (h, settle_delivery) refl

  settle_terminal :
      (result : DeliveryAttemptResult) (s : Store)
      → result.outcome ≢ retry
      → settle_delivery db result s ≡ (s, returned tt)
  settle_terminal result s h = ground arith

  on_delivery_failed-Stands :
      (org id message : String) (made : ℕ) (s : Store)
      → Stands org id pending made s
      → Stands org id
          (status_after retry (leb webhook_max_attempts made))
          made
          (on_delivery_failed db org id message made s)
  unfolding on_delivery_failed
  on_delivery_failed-Stands org id message made s v =
      elim (Bool-cases (leb webhook_max_attempts made)) [
        | inl last ↦ rw last (
            record_delivery_attempt-Stands org id made (gave_up message) true pending exhausted made
              s refl v)
        | inr early ↦ rw early v
      ]

  process_retry :
      (org id : String) (made : ℕ) (m : Meeting) (s : Store)
      → IsRetried m
      → process_delivery db org id made m s ≡ (
        record_delivery_attempt db org id (made + 1) (attempt_delivery m) false s,
        threw (message_of m),
      )
  unfolding process_delivery
  process_retry org id made m s h =
      let early : is_terminal db (attempt_delivery m).outcome ≡ false = rw h refl in
      rw early (settle_retry (attempt_delivery m) _ h)

  process_terminal :
      (org id : String) (made : ℕ) (m : Meeting) (s : Store)
      → (attempt_delivery m).outcome ≢ retry
      → process_delivery db org id made m s
        ≡ (record_delivery_attempt db org id (made + 1) (attempt_delivery m) true s, returned tt)
  unfolding process_delivery
  process_terminal org id made m s h =
      let final : is_terminal db (attempt_delivery m).outcome ≡ true = ground arith in
      rw final (settle_terminal (attempt_delivery m) _ h)

  -- A retried attempt: the processor and then the listener.
  retried-Stands :
      (org id : String) (made : ℕ) (m : Meeting) (rest : Store → Store) (status : DeliveryStatus)
      (before : ℕ) (s : Store)
      → IsRetried m
      → Stands org id status before s
      → (s' : Store) × (after_delivery db org id made rest (process_delivery db org id made m s)
          ≡ rest s')
        × Stands org id (status_after retry (leb webhook_max_attempts (made + 1))) (made + 1) s'
  retried-Stands org id made m rest status before s h v =
      let s1 = record_delivery_attempt db org id (made + 1) (attempt_delivery m) false s in
      let recorded : Stands org id pending (made + 1) s1 =
        record_delivery_attempt-Stands org id (made + 1) (attempt_delivery m) false status pending
          before s (rw h refl) v in
      (
        on_delivery_failed db org id (message_of m) (made + 1) s1,
        rw (process_retry org id made m s h) refl,
        on_delivery_failed-Stands org id (message_of m) (made + 1) s1 recorded,
      )

  -- At least one attempt, after `made` earlier ones, on a delivery that its organization sees, and
  -- all of them to be retried (the endpoint not reached, or a status that is no 2xx, 3xx or 4xx): the
  -- delivery counts all attempts, and is EXHAUSTED from the sixth on and PENDING before.
  pub deliveries_in_turn-Retried :
      (org id : String) (m : Meeting) (ms : List Meeting) (made : ℕ) (status : DeliveryStatus)
      (before : ℕ) (s : Store)
      → All IsRetried (m ∷ ms)
      → Stands org id status before s
      → let total = made + length (m ∷ ms) in
        Stands org id
          (status_after retry (leb webhook_max_attempts total))
          total
          (deliveries_in_turn db org id made (m ∷ ms) s)
  unfolding deliveries_in_turn
  deliveries_in_turn-Retried org id m [] made status before s h v =
      let (s', same, now) =
        retried-Stands org id made m (deliveries_in_turn db org id (made + 1) []) status before s
          h.0 v in
      rw same now
  deliveries_in_turn-Retried org id m (m' ∷ ms) made status before s h v =
      let (s', same, now) =
        retried-Stands org id made m (deliveries_in_turn db org id (made + 1) (m' ∷ ms)) status
          before s h.0 v in
      let count : made + length (m ∷ m' ∷ ms) ≡ made + 1 + length (m' ∷ ms) = omega arith in
      rw (same, count) (deliveries_in_turn-Retried org id m' ms (made + 1) _ (made + 1) s' h.1 now)

  terminal-Stands :
      (org id : String) (made : ℕ) (m : Meeting) (rest : Store → Store) (status : DeliveryStatus)
      (before : ℕ) (s : Store)
      → (attempt_delivery m).outcome ≢ retry
      → Stands org id status before s
      → Stands org id
          (status_after (attempt_delivery m).outcome true)
          (made + 1)
          (after_delivery db org id made rest (process_delivery db org id made m s))
  terminal-Stands org id made m rest status before s h v = rw (process_terminal org id made m s h) (
      record_delivery_attempt-Stands org id (made + 1) (attempt_delivery m) true status _ before s
        refl v)

  -- Any number of attempts to be retried, after `made` earlier ones, and then one that is not, on a
  -- delivery that its organization sees: the delivery is DELIVERED or FAILED as that attempt was, it
  -- counts the attempts up to that one, and whatever would come of a later attempt does not matter.
  pub deliveries_in_turn-Settled :
      (org id : String) (ms : List Meeting) (m : Meeting) (later : List Meeting) (made : ℕ)
      (status : DeliveryStatus) (before : ℕ) (s : Store)
      → All IsRetried ms
      → (attempt_delivery m).outcome ≢ retry
      → Stands org id status before s
      → Stands org id
          (status_after (attempt_delivery m).outcome true)
          (made + length ms + 1)
          (deliveries_in_turn db org id made (ms ++ m ∷ later) s)
  unfolding deliveries_in_turn
  deliveries_in_turn-Settled org id [] m later made status before s fails h v =
      let count : made + length {A = Meeting} [] + 1 ≡ made + 1 = omega arith in
      rw count (
        terminal-Stands org id made m (deliveries_in_turn db org id (made + 1) later) status before
          s h v)
  deliveries_in_turn-Settled org id (m' ∷ ms) m later made status before s fails h v =
      let (s', same, now) =
        retried-Stands org id made m' (deliveries_in_turn db org id (made + 1) (ms ++ m ∷ later))
          status before s fails.0 v in
      let count : made + length (m' ∷ ms) + 1 ≡ made + 1 + length ms + 1 = omega arith in
      rw (same, count)
        (deliveries_in_turn-Settled org id ms m later (made + 1) _ (made + 1) s' fails.1 h now)
