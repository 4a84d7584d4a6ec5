-- ===== src/Jobs/Queue.antt =====
-- packages/jobs/src/service.ts: submission and replay. The ids that the database and BullMQ give
-- are arguments.
use cloud_mesh.Common.{ℕ, String, Bool, true, false, Option, none, some}
use cloud_mesh.Common.KeyValue.{KeyValue}
use cloud_mesh.CircuitBreaker.{Outcome, returned, threw}
use cloud_mesh.Jobs.{
  JobStatus, queued, dead_letter, JobRow, PriorityInput, to_priority_value, QueueEntry, JobError,
  invalid_priority, not_replayable, World, get_job, enqueue, set_bull_job_id, write,
}

pub record CreateJobInput : Type 0 where
  pub org_id : String
  pub api_key_id : Option String
  pub type : String
  pub payload : String
  pub priority : PriorityInput

pub record CreatedJob : Type 0 where
  pub id : String
  pub status : JobStatus
  pub type : String
  pub priority : ℕ

abbrev pub new_row : CreateJobInput → ℕ → JobRow
new_row input priority = record {
  org_id = input.org_id;
  api_key_id = input.api_key_id;
  type = input.type;
  status = queued;
  priority = priority;
  payload = input.payload;
  result = none;
  error = none;
  progress = 0;
  attempts = 0;
  started = false;
  finished = false;
  bull_job_id = none;
}

abbrev pub replayed_row : JobRow → JobRow
replayed_row r = record r {
  status = queued;
  error = none;
  progress = 0;
  attempts = 0;
  started = false;
  finished = false;
}

abbrev pub is_dead_letter : JobStatus → Bool
is_dead_letter dead_letter = true
is_dead_letter _ = false

module _ (db : KeyValue JobRow) where
  open db use {put}

  -- The row first, then the queue entry, then BullMQ's id; a priority that is no number is refused
  -- by the database before anything is written.
  unfoldable pub submit :
      String
      → String
      → CreateJobInput
      → Option ℕ
      → World db
      → World db × Outcome JobError CreatedJob
  submit id bull_id input none w = (w, threw invalid_priority)
  submit id bull_id input (some priority) w =
      let row : JobRow = new_row input priority in
      let w1 : World db = record w { jobs = put w.jobs id row } in
      let entry : QueueEntry = record {
        job_record_id = id;
        org_id = input.org_id;
        type = input.type;
        priority = priority;
      } in
      (
        set_bull_job_id db input.org_id id bull_id (enqueue db entry w1),
        returned (record { id = id; status = queued; type = input.type; priority = priority }),
      )

  unfoldable pub create_job :
      String → String → CreateJobInput → World db → World db × Outcome JobError CreatedJob
  unfolding submit
  create_job id bull_id input w = submit id bull_id input (to_priority_value input.priority) w

  unfoldable pub requeue :
      String → String → String → JobRow → World db → World db × Outcome JobError (Unit {0})
  requeue org id bull_id job w =
      let w1 : World db = write db id (some job) replayed_row w in
      let entry : QueueEntry = record {
        job_record_id = id;
        org_id = org;
        type = job.type;
        priority = job.priority;
      } in
      (set_bull_job_id db org id bull_id (enqueue db entry w1), returned tt)

  unfoldable pub replay :
      String → String → String → Option JobRow → World db → World db × Outcome JobError (Unit {0})
  unfolding requeue
  replay org id bull_id none w = (w, returned tt)
  replay org id bull_id (some job) w = elim (is_dead_letter job.status) [
    | true ↦ requeue org id bull_id job w
    | false ↦ (w, threw (not_replayable job.status))
  ]

  unfoldable pub replay_job :
      String → String → String → World db → World db × Outcome JobError (Unit {0})
  unfolding replay
  replay_job org id bull_id w = replay org id bull_id (get_job db org id w) w
