-- ===== src/Jobs.antt =====
-- packages/jobs: the jobs table, the progress reports and the worker. A row is found under its id
-- and seen by its own organization only (row-level security and the `orgId` of each query). The
-- queue is the list of entries handed to BullMQ, and `published` what was sent to Redis, oldest
-- first. JSON payloads, results and clock readings are texts and marks.
pub mod Queue
pub mod Worker
pub mod Handlers
pub mod Bills
pub mod Billed
pub mod Tenancy
pub mod Rows
pub mod Lifecycle
pub mod Replay
mod Tests
use cloud_mesh.Common.{
  ℕ, ◌+◌, String, Bool, true, false, Option, none, some, List, [], ◌∷◌, ◌++◌, min, str_eq, get_or,
  if◌then◌else◌,
}
use cloud_mesh.Common.KeyValue.{KeyValue}
use cloud_mesh.CircuitBreaker.{Outcome, returned, threw}

pub data JobStatus : Type 0 where
  queued running completed job_failed dead_letter : JobStatus

pub record JobRow : Type 0 where
  pub org_id : String
  pub api_key_id : Option String
  pub type : String
  pub status : JobStatus
  pub priority : ℕ
  pub payload : String
  pub result : Option String
  pub error : Option String
  pub progress : ℕ
  pub attempts : ℕ
  pub started : Bool
  pub finished : Bool
  pub bull_job_id : Option String

pub data JobPriorityName : Type 0 where
  critical high normal low : JobPriorityName

abbrev pub job_priorities : JobPriorityName → ℕ
job_priorities critical = 1
job_priorities high = 5
job_priorities normal = 10
job_priorities low = 20

abbrev pub max_job_attempts : ℕ
max_job_attempts = 3

-- A caller-supplied priority: one of the names, the name of a property that every object inherits
-- (such as "constructor"), or anything else.
pub data PriorityInput : Type 0 where
  known : JobPriorityName → PriorityInput
  inherited other : PriorityInput

-- `isJobPriorityName`: a string that is `in` the table, and so an inherited name as well.
unfoldable pub is_job_priority_name : PriorityInput → Bool
is_job_priority_name (known name) = true
is_job_priority_name inherited = true
is_job_priority_name other = false

-- The property of the table under a name; an inherited one is a function, and no number.
abbrev pub job_priorities_at : PriorityInput → Option ℕ
job_priorities_at (known name) = some (job_priorities name)
job_priorities_at inherited = none
job_priorities_at other = none

unfoldable pub to_priority_value : PriorityInput → Option ℕ
unfolding is_job_priority_name
to_priority_value name =
    job_priorities_at (if is_job_priority_name name then name else known normal)

-- A reported percentage: not finite, negative, or at least `n` and below `n + 1`.
pub data Percent : Type 0 where
  not_finite negative : Percent
  whole : ℕ → Percent

unfoldable pub normalize_progress : Percent → ℕ
normalize_progress not_finite = 0
normalize_progress negative = 0
normalize_progress (whole n) = min 100 n

pub record ProgressEvent : Type 0 where
  pub job_id : String
  pub progress : ℕ
  pub status : JobStatus
  pub error : Option String

pub record QueueEntry : Type 0 where
  pub job_record_id : String
  pub org_id : String
  pub type : String
  pub priority : ℕ

pub data OutboxEvent : Type 0 where
  job_completed : String → String → String → OutboxEvent
  job_dead : String → String → String → String → OutboxEvent

pub data JobError : Type 0 where
  row_missing invalid_priority : JobError
  unknown_type : String → JobError
  not_replayable : JobStatus → JobError
  handler_failed : String → JobError

-- The row that a tenant sees.
abbrev pub visible : String → Option JobRow → Option JobRow
visible org none = none
visible org (some r) = if str_eq r.org_id org then some r else none

abbrev pub complete_row : String → JobRow → JobRow
complete_row result r = record r {
  status = completed;
  progress = 100;
  result = some result;
  finished = true;
  error = none;
}

abbrev pub fail_row : String → Bool → JobRow → JobRow
fail_row message true r = record r { status = dead_letter; error = some message; finished = true }
fail_row message false r = record r { status = job_failed; error = some message }

abbrev pub fail_status : Bool → JobStatus
fail_status true = dead_letter
fail_status false = job_failed

-- The event is written on the last attempt only, and only if a row was updated.
abbrev pub fail_events : String → String → String → Bool → Option JobRow → List OutboxEvent
fail_events org id message true (some r) = job_dead org id r.type message ∷ []
fail_events org id message true none = []
fail_events org id message false row = []

module _ (db : KeyValue JobRow) where
  open db use {Store, get, put}

  pub record World : Type 0 where
    pub jobs : Store
    pub outbox : List OutboxEvent
    pub queue : List QueueEntry
    pub published : List ProgressEvent

  -- `getJob`
  unfoldable pub get_job : String → String → World → Option JobRow
  get_job org id w = visible org (get w.jobs id)

  abbrev pub write : String → Option JobRow → (JobRow → JobRow) → World → World
  write id none change w = w
  write id (some r) change w = record w { jobs = put w.jobs id (change r) }

  -- `updateMany` by id and organization: nothing happens if the tenant sees no such row.
  unfoldable pub update_many : String → String → (JobRow → JobRow) → World → World
  unfolding get_job
  update_many org id change w = write id (get_job org id w) change w

  unfoldable pub publish_job_progress : ProgressEvent → World → World
  publish_job_progress e w = record w { published = w.published ++ e ∷ [] }

  unfoldable pub mark_job_running : String → String → ℕ → World → World
  mark_job_running org id attempt w =
      publish_job_progress (record { job_id = id; progress = 0; status = running; error = none })
        (update_many org id
          (λ r. record r { status = running; attempts = attempt; started = true; progress = 0 }) w)

  unfoldable pub update_job_progress : String → String → Percent → World → World
  update_job_progress org id percent w =
      publish_job_progress
        (record {
          job_id = id;
          progress = normalize_progress percent;
          status = running;
          error = none;
        })
        (update_many org id (λ r. record r { progress = normalize_progress percent }) w)

  -- `update` throws where the tenant sees no row, and then the transaction writes no event.
  unfoldable pub complete :
      String → String → String → Option JobRow → World → World × Outcome JobError (Unit {0})
  complete org id result none w = (w, threw row_missing)
  complete org id result (some r) w = (
    publish_job_progress (record { job_id = id; progress = 100; status = completed; error = none })
        (record w {
          jobs = put w.jobs id (complete_row result r);
          outbox = w.outbox ++ job_completed org id r.type ∷ [];
        }),
    returned tt,
  )

  unfoldable pub mark_job_completed :
      String → String → String → World → World × Outcome JobError (Unit {0})
  unfolding complete
  mark_job_completed org id result w = complete org id result (get_job org id w) w

  unfoldable pub mark_job_failed : String → String → String → Bool → World → World
  mark_job_failed org id message is_final w =
      let row = get_job org id w in
      let w' = update_many org id (fail_row message is_final) w in
      publish_job_progress
        (record { job_id = id; progress = 0; status = fail_status is_final; error = some message })
        (record w' { outbox = w'.outbox ++ fail_events org id message is_final row })

  abbrev pub enqueue : QueueEntry → World → World
  enqueue e w = record w { queue = w.queue ++ e ∷ [] }

  -- The last write of `createJob` and `replayJob`, after BullMQ has named its job.
  abbrev pub set_bull_job_id : String → String → String → World → World
  set_bull_job_id org id bull_id w =
      update_many org id (λ r. record r { bull_job_id = some bull_id }) w
