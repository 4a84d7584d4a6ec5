-- ===== src/Sdk/Requests.antt =====
-- When the client's request loop ends, and with what.
use cloud_mesh.Common.{
  ℕ, zero, suc, ◌+◌, ◌*◌, ◌^◌, ◌≤◌, ◌<◌, ◌≡◌, refl, ◌∙◌, Bool, true, false, List, [], ◌∷◌, ◌++◌,
  arith, All, length, if◌then◌else◌,
}
use mathlib.Core.List.{append_assoc, append-nil}
use cloud_mesh.CircuitBreaker.{Outcome, returned, threw}
use cloud_mesh.Sdk.{
  HttpResponse, Fetched, replied, failed, SdkError, connection_error, error_from_response, is_ok,
  is_retryable, backoff_ms, request_loop, request,
}

-- A network that gives these answers in turn, and then no connection, and the sleeps so far.
pub record Script : Type 0 where
  pub answers : List Fetched
  pub sleeps : List ℕ

abbrev pub next_answer : List Fetched → List ℕ → Script × Fetched
next_answer [] sleeps = (record { answers = []; sleeps = sleeps }, failed false "no route")
next_answer (a ∷ as') sleeps = (record { answers = as'; sleeps = sleeps }, a)

abbrev pub play : Script → Script × Fetched
play w = next_answer w.answers w.sleeps

abbrev pub rest : ℕ → Script → Script
rest ms w = record w { sleeps = w.sleeps ++ ms ∷ [] }

-- Only 429, 5xx and a connection that failed without the caller's doing are tried again.
unfoldable pub is_retried : Fetched → Bool
is_retried (failed aborted message) = if aborted then false else true
is_retried (replied r) = if is_ok r.status then false else is_retryable r.status

unfoldable pub outcome_of : Fetched → Outcome SdkError HttpResponse
outcome_of (failed true message) = threw (connection_error "Request aborted by caller.")
outcome_of (failed false message) = threw (connection_error message)
outcome_of (replied r) = if is_ok r.status then returned r else threw (error_from_response r)

-- The sleep after an answer that is tried again.
unfoldable pub sleep_after : ℕ → Fetched → ℕ
sleep_after attempt (failed aborted message) = 2 ^ attempt * 250
sleep_after attempt (replied r) = backoff_ms attempt (error_from_response r)

abbrev pub sleeps_after : ℕ → List Fetched → List ℕ
sleeps_after attempt [] = []
sleeps_after attempt (a ∷ as') = sleep_after attempt a ∷ sleeps_after (attempt + 1) as'

abbrev pub IsRetried : Fetched → Type 0
IsRetried a = is_retried a ≡ true

retried_step :
    (left attempt : ℕ) (a : Fetched) (as' : List Fetched) (ss : List ℕ)
    → IsRetried a
    → request_loop play rest (suc left) attempt (record { answers = a ∷ as'; sleeps = ss })
      ≡ request_loop play rest left
          (attempt + 1)
          (record { answers = as'; sleeps = ss ++ sleep_after attempt a ∷ [] })
unfolding request_loop is_retried sleep_after
retried_step left attempt (failed true message) as' ss h = cc
retried_step left attempt (failed false message) as' ss h = refl
retried_step left attempt (replied r) as' ss h = ground arith

settled_step :
    (left attempt : ℕ) (a : Fetched) (as' : List Fetched) (ss : List ℕ)
    → is_retried a ≡ false
    → request_loop play rest left attempt (record { answers = a ∷ as'; sleeps = ss })
      ≡ (record { answers = as'; sleeps = ss }, outcome_of a)
unfolding request_loop is_retried outcome_of
settled_step zero attempt (failed true message) as' ss h = refl
settled_step zero attempt (failed false message) as' ss h = cc
settled_step zero attempt (replied r) as' ss h = ground arith
settled_step (suc left) attempt (failed true message) as' ss h = refl
settled_step (suc left) attempt (failed false message) as' ss h = cc
settled_step (suc left) attempt (replied r) as' ss h = ground arith

last_step :
    (attempt : ℕ) (a : Fetched) (as' : List Fetched) (ss : List ℕ)
    → request_loop play rest zero attempt (record { answers = a ∷ as'; sleeps = ss })
      ≡ (record { answers = as'; sleeps = ss }, outcome_of a)
unfolding request_loop outcome_of
last_step attempt (failed true message) as' ss = refl
last_step attempt (failed false message) as' ss = refl
last_step attempt (replied r) as' ss = ground arith

-- What ends the loop: an answer that is not tried again, or any answer to the last attempt.
abbrev pub Ends : ℕ → List Fetched → Fetched → Type 0
Ends max_retries retried a =
    length retried ≤ max_retries × (length retried < max_retries → is_retried a ≡ false)

loop-Ends :
    (left attempt : ℕ) (retried : List Fetched) (a : Fetched) (later : List Fetched) (ss : List ℕ)
    → All IsRetried retried
    → Ends left retried a
    → request_loop play rest left attempt (record { answers = retried ++ a ∷ later; sleeps = ss })
      ≡ (record { answers = later; sleeps = ss ++ sleeps_after attempt retried }, outcome_of a)
loop-Ends zero attempt [] a later ss h (within, final) =
    rw (append-nil ss) (last_step attempt a later ss)
loop-Ends (suc left) attempt [] a later ss h (within, final) =
    rw (append-nil ss) (settled_step (suc left) attempt a later ss (final (omega arith)))
loop-Ends zero attempt (r ∷ rs) a later ss (h, hs) (within, final) = absurd (omega arith)
loop-Ends (suc left) attempt (r ∷ rs) a later ss (h, hs) (within, final) =
    retried_step left attempt r (rs ++ a ∷ later) ss h
    ∙ loop-Ends left (attempt + 1) rs a later (ss ++ sleep_after attempt r ∷ []) hs
        (omega arith, λ lt. final (omega arith))
    ∙ rw (append_assoc ss (sleep_after attempt r ∷ []) (sleeps_after (attempt + 1) rs)) refl

-- Where the network answers with some answers that are tried again, at most `maxRetries` of them,
-- and then with one that is not, or that comes to the last attempt: the client makes one call more
-- than there were answers to retry, sleeps after each of those as long as it asks or doubles from
-- 250 ms, and returns or throws what the last answer gives. Later answers are not fetched.
pub request-Ends :
    (max_retries : ℕ) (retried : List Fetched) (a : Fetched) (later : List Fetched)
    → All IsRetried retried
    → Ends max_retries retried a
    → request play rest max_retries (record { answers = retried ++ a ∷ later; sleeps = [] })
      ≡ (record { answers = later; sleeps = sleeps_after 0 retried }, outcome_of a)
unfolding request
request-Ends max_retries retried a later h ends = loop-Ends max_retries 0 retried a later [] h ends
