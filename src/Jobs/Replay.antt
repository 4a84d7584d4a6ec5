-- ===== src/Jobs/Replay.antt =====
-- packages/jobs/src/service.ts: what a submission leaves for the worker, and who may be replayed.
use cloud_mesh.Common.{
  ℕ, ◌+◌, ◌<◌, ◌≡◌, refl, ◌∙◌, String, false, some, List, [], ◌∷◌, ◌++◌, length, All,
}
use cloud_mesh.Common.KeyValue.{KeyValue}
use cloud_mesh.CircuitBreaker.{returned, threw}
use cloud_mesh.Jobs.{
  JobRow, queued, set_bull_job_id, dead_letter, JobPriorityName, known, job_priorities,
  to_priority_value, is_job_priority_name, QueueEntry, not_replayable, World, get_job, enqueue,
  max_job_attempts, update_many,
}
use cloud_mesh.Jobs.Queue.{
  CreateJobInput, new_row, submit, create_job, replayed_row, is_dead_letter, requeue, replay,
  replay_job,
}
use cloud_mesh.Jobs.Worker.{Registry, attempts_in_turn}
use cloud_mesh.Jobs.Tenancy.{visible-some}
use cloud_mesh.Jobs.Rows.{put_seen, Fails, Succeeds, Completed}
use cloud_mesh.Jobs.Lifecycle.{attempts_in_turn-Completed}

abbrev pub entry_of : String → String → JobRow → QueueEntry
entry_of org id r = record {
  job_record_id = id;
  org_id = org;
  type = r.type;
  priority = r.priority;
}

module _ (db : KeyValue JobRow) where
  open db use {get, put}

  -- The row, as its organization sees it; the queue holds one entry more than before, and the
  -- outbox what it held.
  abbrev pub Queued : String → String → World db → JobRow → World db → Type 0
  Queued org id w r before =
      (get_job db org id w ≡ some r)
      × (w.queue ≡ before.queue ++ entry_of org id r ∷ [])
      × (w.outbox ≡ before.outbox)

  -- Writing BullMQ's id changes the row that was written, and no queue entry.
  set_bull_job_id-Queued :
      (org id bull_id : String) (w : World db) (r : JobRow) (before : World db)
      → Queued org id w r before
      → Queued org id
          (set_bull_job_id db org id bull_id w)
          (record r { bull_job_id = some bull_id })
          before
  unfolding update_many get_job
  set_bull_job_id-Queued org id bull_id w r before (seen, sent, kept) =
      let own = (visible-some db org (get w.jobs id) seen).1 in
      rw seen (put_seen db org id w (record r { bull_job_id = some bull_id }) own, sent, kept)

  enqueued :
      (org id : String) (w : World db) (r : JobRow)
      → r.org_id ≡ org
      → Queued org id (enqueue db (entry_of org id r) (record w { jobs = put w.jobs id r })) r w
  unfolding get_job
  enqueued org id w r own = (put_seen db org id w r own, refl, refl)

  submit-Queued :
      (id bull_id : String) (input : CreateJobInput) (priority : ℕ) (w : World db)
      → Queued input.org_id id
          (submit db id bull_id input (some priority) w).0
          (record (new_row input priority) { bull_job_id = some bull_id })
          w
  unfolding submit
  submit-Queued id bull_id input priority w =
      set_bull_job_id-Queued input.org_id id bull_id _ (new_row input priority) w
        (enqueued input.org_id id w (new_row input priority) refl)

  requeue-Queued :
      (org id bull_id : String) (r : JobRow) (w : World db)
      → r.org_id ≡ org
      → Queued org id
          (requeue db org id bull_id r w).0
          (record (replayed_row r) { bull_job_id = some bull_id })
          w
  unfolding requeue
  requeue-Queued org id bull_id r w own =
      set_bull_job_id-Queued org id bull_id _ (replayed_row r) w
        (enqueued org id w (replayed_row r) own)

  replay_job_dead :
      (org id bull_id : String) (r : JobRow) (w : World db)
      → get_job db org id w ≡ some r
      → r.status ≡ dead_letter
      → replay_job db org id bull_id w ≡ requeue db org id bull_id r w
  unfolding replay_job
  replay_job_dead org id bull_id r w seen dead = rw seen (unfold replay in rw (dead, replay) refl)

  replay_job_alive :
      (org id bull_id : String) (r : JobRow) (w : World db)
      → get_job db org id w ≡ some r
      → is_dead_letter r.status ≡ false
      → replay_job db org id bull_id w ≡ (w, threw (not_replayable r.status))
  unfolding replay_job
  replay_job_alive org id bull_id r w seen alive =
      rw seen (unfold replay in rw (alive, replay) refl)

  -- A dead letter that its organization replays: its row is QUEUED again, with no error, no
  -- attempts and BullMQ's new id, the queue has exactly one entry more, which names it, and no
  -- event is sent. A second replay before the worker has taken it is refused with its status and
  -- changes nothing.
  pub replay_job_once :
      (org id bull_id next_id : String) (r : JobRow) (w : World db)
      → get_job db org id w ≡ some r
      → r.status ≡ dead_letter
      → (w' : World db) × (replay_job db org id bull_id w ≡ (w', returned tt))
        × Queued org id w' (record (replayed_row r) { bull_job_id = some bull_id }) w
        × (replay_job db org id next_id w' ≡ (w', threw (not_replayable queued)))
  replay_job_once org id bull_id next_id r w seen dead =
      let w' = (requeue db org id bull_id r w).0 in
      let own : r.org_id ≡ org = unfold get_job in (visible-some db org (get w.jobs id) seen).1 in
      let again = requeue-Queued org id bull_id r w own in
      (
        w',
        replay_job_dead org id bull_id r w seen dead ∙ unfold requeue in refl,
        again,
        replay_job_alive org id next_id _ w' again.0 refl,
      )

  create_job-known :
      (id bull_id : String) (input : CreateJobInput) (name : JobPriorityName) (w : World db)
      → input.priority ≡ known name
      → create_job db id bull_id input w ≡ submit db id bull_id input (some (job_priorities name)) w
  unfolding create_job
  create_job-known id bull_id input name w h =
      rw h (unfold to_priority_value is_job_priority_name in refl)

  -- A job submitted with a priority of the table is queued with that priority and sends no event.
  -- When at most two attempts then fail and the next succeeds, its organization finds it COMPLETED
  -- with the result, at 100 percent and with no error, and one event has been sent.
  pub create_job-Completed :
      (id bull_id result : String) (input : CreateJobInput) (name : JobPriorityName)
      (gs : List Registry) (g : Registry) (w : World db)
      → input.priority ≡ known name
      → All (Fails db input.type) gs
      → Succeeds db input.type result g
      → length gs < max_job_attempts
      → let created = (create_job db id bull_id input w).0 in
        Queued input.org_id id created
          (record (new_row input (job_priorities name)) { bull_job_id = some bull_id })
          w
        × Completed db input.org_id id input.type result
            (length gs + 1)
            (attempts_in_turn db input.org_id id input.type 0 (gs ++ g ∷ []) created)
            w.outbox
  create_job-Completed id bull_id result input name gs g w h fails ends few =
      let queued-seen : Queued input.org_id id (create_job db id bull_id input w).0 _ w =
        rw (create_job-known id bull_id input name w h)
          (submit-Queued id bull_id input (job_priorities name) w) in
      (
        queued-seen,
        rw queued-seen.2 at (
            attempts_in_turn-Completed db input.org_id id input.type result gs g _ _ fails ends few
              queued-seen.0 refl),
      )
