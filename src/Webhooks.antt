-- ===== src/Webhooks.antt =====
-- packages/webhooks/src/deliver.ts, queue.ts and service.ts: a delivery of an event to an
-- organization's endpoint. What the endpoint answers and what the guard says of its URL are
-- arguments. BullMQ decides when a delivery is attempted again; a series of attempts is a list, and
-- BullMQ counts the attempts made.
pub mod Ssrf
pub mod Address
pub mod Guard
pub mod Dispatch
pub mod Targets
pub mod Ended
pub mod FanOut
pub mod Endpoints
pub mod Removal
pub mod Ranges
pub mod Delivery
mod Tests
use Prim.Native.String.{◌++◌}
use cloud_mesh.Common.{
  ℕ, ◌+◌, String, Bool, true, false, Option, none, some, List, [], ◌∷◌, get_or, leb, ltb, ◌&&◌,
  str_eq, length, if◌then◌else◌,
}
use cloud_mesh.Common.KeyValue.{KeyValue}
use cloud_mesh.CircuitBreaker.{Outcome, returned, threw}

pub data DeliveryOutcome : Type 0 where
  delivered rejected retry : DeliveryOutcome

pub record DeliveryAttemptResult : Type 0 where
  pub outcome : DeliveryOutcome
  pub response_status : Option ℕ
  pub response_body : Option String
  pub error_message : Option String

-- What `fetch` gives: a status and a body, cut to its first 2000 characters, or an exception.
pub data Reply : Type 0 where
  responded : ℕ → String → Reply
  unreachable : String → Reply

abbrev pub in_range : ℕ → ℕ → ℕ → Bool
in_range low high n = leb low n && ltb n high

-- `sendAndClassify`, from the reply on.
unfoldable pub classify : Reply → DeliveryAttemptResult
classify (unreachable message) = record {
  outcome = retry;
  response_status = none;
  response_body = none;
  error_message = some message;
}
classify (responded status body) =
    if in_range 200 300 status
    then record {
      outcome = delivered;
      response_status = some status;
      response_body = some body;
      error_message = none;
    }
    else if in_range 300 400 status
    then record {
      outcome = rejected;
      response_status = some status;
      response_body = some body;
      error_message = some "redirect response — not followed, not retried";
    }
    else if in_range 400 500 status
    then record {
      outcome = rejected;
      response_status = some status;
      response_body = some body;
      error_message = none;
    }
    else record {
      outcome = retry;
      response_status = some status;
      response_body = some body;
      error_message = none;
    }

-- One attempt as its worker meets it: the guard's reason to refuse the URL, or the reply.
pub data Meeting : Type 0 where
  unsafe : String → Meeting
  sent : Reply → Meeting

unfoldable pub attempt_delivery : Meeting → DeliveryAttemptResult
unfolding classify
attempt_delivery (unsafe reason) = record {
  outcome = rejected;
  response_status = none;
  response_body = none;
  error_message = some ("blocked by SSRF guard: " ++ reason);
}
attempt_delivery (sent reply) = classify reply

pub data DeliveryStatus : Type 0 where
  pending done failed exhausted : DeliveryStatus

pub record DeliveryRow : Type 0 where
  pub org_id : String
  pub status : DeliveryStatus
  pub attempts : ℕ
  pub response_status : Option ℕ
  pub response_body : Option String

abbrev pub webhook_retry_schedule_ms : List ℕ
webhook_retry_schedule_ms = 1000 ∷ 5000 ∷ 30_000 ∷ 300_000 ∷ 1_800_000 ∷ []

abbrev pub webhook_max_attempts : ℕ
webhook_max_attempts = length webhook_retry_schedule_ms + 1

abbrev pub status_after : DeliveryOutcome → Bool → DeliveryStatus
status_after delivered is_final = done
status_after rejected is_final = failed
status_after retry true = exhausted
status_after retry false = pending

-- A field given as `undefined` keeps its value.
abbrev pub or_keep {ℓ} : {A : Type ℓ} → Option A → Option A → Option A
or_keep none old = old
or_keep (some new) old = some new

abbrev pub attempted_row : ℕ → DeliveryAttemptResult → Bool → DeliveryRow → DeliveryRow
attempted_row attempt result is_final r = record r {
  status = status_after result.outcome is_final;
  attempts = attempt;
  response_status = or_keep result.response_status r.response_status;
  response_body = or_keep result.response_body r.response_body;
}

-- The result that the `failed` listener records.
abbrev pub gave_up : String → DeliveryAttemptResult
gave_up message = record {
  outcome = retry;
  response_status = none;
  response_body = none;
  error_message = some message;
}

module _ (db : KeyValue DeliveryRow) where
  open db use {Store, get, put}

  abbrev pub visible : String → Option DeliveryRow → Option DeliveryRow
  visible org none = none
  visible org (some r) = if str_eq r.org_id org then some r else none

  abbrev pub write : String → Option DeliveryRow → (DeliveryRow → DeliveryRow) → Store → Store
  write id none change s = s
  write id (some r) change s = put s id (change r)

  unfoldable pub record_delivery_attempt :
      String → String → ℕ → DeliveryAttemptResult → Bool → Store → Store
  record_delivery_attempt org id attempt result is_final s =
      write id (visible org (get s id)) (attempted_row attempt result is_final) s

  abbrev pub settle_delivery : DeliveryAttemptResult → Store → Store × Outcome String (Unit {0})
  settle_delivery result s = elim result.outcome [
    | retry ↦ (s, threw (get_or result.error_message "delivery failed, retrying"))
    | delivered ↦ (s, returned tt)
    | rejected ↦ (s, returned tt)
  ]

  abbrev pub is_terminal : DeliveryOutcome → Bool
  is_terminal retry = false
  is_terminal _ = true

  -- The processor; `made` is `attemptsMade`.
  unfoldable pub process_delivery :
      String → String → ℕ → Meeting → Store → Store × Outcome String (Unit {0})
  unfolding record_delivery_attempt
  process_delivery org id made meeting s =
      let result = attempt_delivery meeting in
      settle_delivery result
        (record_delivery_attempt org id (made + 1) result (is_terminal result.outcome) s)

  -- The `failed` listener; `made` counts the attempt that failed.
  unfoldable pub on_delivery_failed : String → String → String → ℕ → Store → Store
  unfolding record_delivery_attempt
  on_delivery_failed org id message made s =
      if leb webhook_max_attempts made
      then record_delivery_attempt org id made (gave_up message) true s
      else s

  abbrev pub after_delivery :
      String → String → ℕ → (Store → Store) → Store × Outcome String (Unit {0}) → Store
  after_delivery org id made rest (s, returned ended) = s
  after_delivery org id made rest (s, threw message) =
      rest (on_delivery_failed org id message (made + 1) s)

  -- BullMQ runs the attempts in turn and stops at one that does not throw.
  unfoldable pub deliveries_in_turn : String → String → ℕ → List Meeting → Store → Store
  unfolding process_delivery on_delivery_failed
  deliveries_in_turn org id made [] s = s
  deliveries_in_turn org id made (m ∷ ms) s =
      after_delivery org id made (deliveries_in_turn org id (made + 1) ms)
        (process_delivery org id made m s)
