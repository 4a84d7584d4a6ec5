-- ===== src/Sdk.antt =====
-- packages/sdk/src/client.ts and errors.ts: the client's request loop and its errors. `fetch` is an
-- argument that acts on a world, and so is the sleep; the world holds what the network does.
pub mod Requests
pub mod Reader
pub mod Frames
pub mod RoundTrip
mod Tests
use cloud_mesh.Common.{
  ℕ, zero, suc, ◌+◌, ◌*◌, ◌^◌, String, Bool, true, false, not, ◌&&◌, ◌||◌, Option, none, some,
  get_or, leb, ltb, ◌==◌, if◌then◌else◌,
}
use cloud_mesh.CircuitBreaker.{Outcome, returned, threw}

-- The classes of errors.ts.
pub data ErrorClass : Type 0 where
  cloud_mesh_error authentication invalid_request budget_exceeded not_found service connection :
      ErrorClass
  rate_limit : Option ℕ → ErrorClass

pub record SdkError : Type 0 where
  pub class : ErrorClass
  pub status : ℕ
  pub code : String
  pub message : Option String
  pub request_id : Option String

-- What the client reads of a response that is no success: the two fields of its body, if that is
-- JSON, and Retry-After in whole milliseconds, if that is a finite number.
pub record HttpResponse : Type 0 where
  pub status : ℕ
  pub body_error : Option String
  pub body_code : Option String
  pub retry_after_ms : Option ℕ
  pub request_id : Option String

pub data Fetched : Type 0 where
  replied : HttpResponse → Fetched
  -- An exception, and whether the caller's signal was aborted by then.
  failed : Bool → String → Fetched

unfoldable pub class_of : ℕ → Option ℕ → ErrorClass
class_of status retry_after =
    if status == 400
    then invalid_request
    else if status == 401
    then authentication
    else if status == 402
    then budget_exceeded
    else if status == 404
    then not_found
    else if status == 429
    then rate_limit retry_after
    else if leb 500 status
    then service
    else cloud_mesh_error

-- A message of `none` stands for `Request failed with status ...`.
unfoldable pub error_from_response : HttpResponse → SdkError
unfolding class_of
error_from_response r = record {
  class = class_of r.status r.retry_after_ms;
  status = r.status;
  code = get_or r.body_code "UNKNOWN";
  message = r.body_error;
  request_id = r.request_id;
}

abbrev pub connection_error : String → SdkError
connection_error message = record {
  class = connection;
  status = 0;
  code = "CONNECTION_ERROR";
  message = some message;
  request_id = none;
}

-- `response.ok`
abbrev pub is_ok : ℕ → Bool
is_ok status = leb 200 status && ltb status 300

unfoldable pub is_retryable : ℕ → Bool
is_retryable status = status == 429 || leb 500 status

abbrev pub retry_after_of : ErrorClass → Option ℕ
retry_after_of (rate_limit ms) = ms
retry_after_of _ = none

-- `2 ** attempt * 250`, or what the server asked for.
unfoldable pub backoff_ms : ℕ → SdkError → ℕ
backoff_ms attempt e = get_or (retry_after_of e.class) (2 ^ attempt * 250)

module _ {W : Type 0} (fetch : W → W × Fetched) (sleep : ℕ → W → W) where
  -- The rest of one round, for what `fetch` gave; `again` is the next round, or none is left.
  abbrev pub after_fetch :
      ℕ
      → Option (W → W × Outcome SdkError HttpResponse)
      → W × Fetched
      → W × Outcome SdkError HttpResponse
  after_fetch attempt again (w, failed true message) =
      (w, threw (connection_error "Request aborted by caller."))
  after_fetch attempt none (w, failed false message) = (w, threw (connection_error message))
  after_fetch attempt (some again) (w, failed false message) = again (sleep (2 ^ attempt * 250) w)
  after_fetch attempt none (w, replied r) =
      if is_ok r.status then (w, returned r) else (w, threw (error_from_response r))
  after_fetch attempt (some again) (w, replied r) =
      if is_ok r.status
      then (w, returned r)
      else if is_retryable r.status
      then again (sleep (backoff_ms attempt (error_from_response r)) w)
      else (w, threw (error_from_response r))

  -- The loop with `left` retries to go after this attempt.
  unfoldable pub request_loop : ℕ → ℕ → W → W × Outcome SdkError HttpResponse
  unfolding error_from_response is_retryable backoff_ms
  request_loop zero attempt w = after_fetch attempt none (fetch w)
  request_loop (suc left) attempt w =
      after_fetch attempt (some (request_loop left (attempt + 1))) (fetch w)

  unfoldable pub request : ℕ → W → W × Outcome SdkError HttpResponse
  unfolding request_loop
  request max_retries w = request_loop max_retries 0 w
