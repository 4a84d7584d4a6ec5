-- ===== src/Jobs/Worker.antt =====
-- packages/jobs/src/queue.ts: what the worker does with one attempt of a queue entry, and what its
-- `failed` listener writes. BullMQ decides when an entry is attempted again; a series of attempts
-- is a list, and BullMQ counts the attempts made.
use Prim.Native.String.{◌++◌}
use cloud_mesh.Common.{ℕ, ◌+◌, String, Option, none, some, List, [], ◌∷◌, leb}
use cloud_mesh.Common.KeyValue.{KeyValue}
use cloud_mesh.CircuitBreaker.{Outcome, returned, threw}
use cloud_mesh.Jobs.{
  JobRow, Percent, JobError, row_missing, unknown_type, handler_failed, max_job_attempts, World,
  get_job, mark_job_running, update_job_progress, mark_job_completed, mark_job_failed,
}

-- What a handler does in one attempt: the progress that it reports, and how it ends.
pub record Attempt : Type 0 where
  pub reports : List Percent
  pub outcome : Outcome String String

-- The registry finds the handler of a job type, which acts on the payload; a payload that it
-- cannot parse is one of its failures.
abbrev pub Registry : Type 0
Registry = String → Option (String → Attempt)

module _ (db : KeyValue JobRow) where
  abbrev pub report_all : String → String → List Percent → World db → World db
  report_all org id [] w = w
  report_all org id (p ∷ ps) w = report_all org id ps (update_job_progress db org id p w)

  unfoldable pub finish :
      String → String → Outcome String String → World db → World db × Outcome JobError (Unit {0})
  finish org id (returned result) w = mark_job_completed db org id result w
  finish org id (threw message) w = (w, threw (handler_failed message))

  unfoldable pub run_handler :
      String
      → String
      → String
      → Option (String → Attempt)
      → Option JobRow
      → World db
      → World db × Outcome JobError (Unit {0})
  unfolding finish
  run_handler org id type none row w = (w, threw (unknown_type type))
  run_handler org id type (some handler) none w = (w, threw row_missing)
  run_handler org id type (some handler) (some row) w =
      let done = handler row.payload in
      finish org id done.outcome (report_all org id done.reports w)

  -- The processor; `made` is `attemptsMade`.
  unfoldable pub process :
      String → String → String → Registry → ℕ → World db → World db × Outcome JobError (Unit {0})
  unfolding run_handler
  process org id type registry made w =
      let w1 = mark_job_running db org id (made + 1) w in
      run_handler org id type (registry type) (get_job db org id w1) w1

  -- The message of what the processor threw.
  abbrev pub message_of : String → JobError → String
  message_of id (handler_failed message) = message
  message_of id row_missing = "Job record " ++ (id ++ " not found for org")
  message_of id (unknown_type type) = "Unknown job type: " ++ type
  message_of id _ = "job failed"

  -- The `failed` listener; `made` counts the attempt that failed.
  unfoldable pub on_failed : String → String → JobError → ℕ → World db → World db
  on_failed org id err made w =
      mark_job_failed db org id (message_of id err) (leb max_job_attempts made) w

  -- BullMQ runs the attempts in turn, stops at one that succeeds, and tells the listener of each
  -- that fails.
  unfoldable pub after_process :
      String
      → String
      → ℕ
      → (World db → World db)
      → World db × Outcome JobError (Unit {0})
      → World db
  after_process org id made rest (w, returned done) = w
  after_process org id made rest (w, threw err) = rest (on_failed org id err (made + 1) w)

  unfoldable pub attempts_in_turn :
      String → String → String → ℕ → List Registry → World db → World db
  unfolding after_process
  attempts_in_turn org id type made [] w = w
  attempts_in_turn org id type made (g ∷ gs) w =
      after_process org id made (attempts_in_turn org id type (made + 1) gs)
        (process org id type g made w)
