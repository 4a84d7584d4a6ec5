-- ===== src/Jobs/Rows.antt =====
-- What one attempt at a job does to the row that its organization sees, and to the outbox.
use cloud_mesh.Common.{
  ℕ, ◌+◌, ◌≡◌, refl, ap, ◌∙◌, String, Bool, true, false, Option, none, some, List, [], ◌∷◌, ◌++◌,
  eq_refl, leb,
}
use cloud_mesh.Common.KeyValue.{KeyValue}
use cloud_mesh.CircuitBreaker.{returned, threw}
use cloud_mesh.Jobs.{
  JobRow, completed, running, Percent, World, get_job, update_many, mark_job_running,
  update_job_progress, mark_job_completed, mark_job_failed, visible, publish_job_progress, fail_row,
  complete_row, fail_status, complete, OutboxEvent, job_completed, job_dead, JobError,
  handler_failed, max_job_attempts,
}
use cloud_mesh.Jobs.Worker.{
  Registry, Attempt, process, on_failed, after_process, run_handler, report_all, finish, message_of,
}
use cloud_mesh.Jobs.Tenancy.{visible-some, visible_own}

module _ (db : KeyValue JobRow) where
  open db use {get, put, get-put}

  -- The tenant sees the row, of this type, and the outbox holds these events.
  abbrev pub Sees : String → String → World db → JobRow → List OutboxEvent → Type 0
  Sees org id w r events = (get_job db org id w ≡ some r) × (w.outbox ≡ events)

  pub put_seen :
      (org id : String) (w : World db) (r : JobRow)
      → r.org_id ≡ org
      → visible org (get (put w.jobs id r) id) ≡ some r
  put_seen org id w r own = rw (get-put w.jobs id id r, eq_refl id) (visible_own db org r own)

  update_many-Sees :
      (org id : String) (change : JobRow → JobRow) (w : World db) (r : JobRow)
      (events : List OutboxEvent)
      → (change r).org_id ≡ r.org_id
      → Sees org id w r events
      → Sees org id (update_many db org id change w) (change r) events
  unfolding update_many get_job
  update_many-Sees org id change w r events keeps (seen, sent) =
      let own = (visible-some db org (get w.jobs id) seen).1 in
      rw seen (put_seen org id w (change r) (keeps ∙ own), sent)

  mark_job_running-Sees :
      (org id : String) (attempt : ℕ) (w : World db) (r : JobRow) (events : List OutboxEvent)
      → Sees org id w r events
      → Sees org id
          (mark_job_running db org id attempt w)
          (record r { status = running; attempts = attempt; started = true; progress = 0 })
          events
  unfolding mark_job_running publish_job_progress get_job
  mark_job_running-Sees org id attempt w r events h = update_many-Sees org id _ w r events refl h

  -- Progress reports change the row's progress alone.
  report_all-Sees :
      (org id : String) (ps : List Percent) (w : World db) (r : JobRow) (events : List OutboxEvent)
      → Sees org id w r events
      → (p : ℕ) × Sees org id (report_all db org id ps w) (record r { progress = p }) events
  unfolding update_job_progress publish_job_progress get_job
  report_all-Sees org id [] w r events h = (r.progress, h)
  report_all-Sees org id (p ∷ ps) w r events h =
      let next = update_many-Sees org id _ w r events refl h in
      report_all-Sees org id ps (update_job_progress db org id p w) _ events next

  -- A handler that fails whatever the payload.
  abbrev pub Fails : String → Registry → Type 0
  Fails type g =
      (h : String → Attempt) × (message : String → String) × (g type ≡ some h)
      × ((payload : String) → (h payload).outcome ≡ threw (message payload))

  abbrev pub Succeeds : String → String → Registry → Type 0
  Succeeds type result g =
      (h : String → Attempt) × (g type ≡ some h)
      × ((payload : String) → (h payload).outcome ≡ returned result)

  -- The events of a series that has failed: one if the entry is dead.
  abbrev pub deaths : String → String → String → String → Bool → List OutboxEvent
  deaths org id type message true = job_dead org id type message ∷ []
  deaths org id type message false = []

  -- The row of this type after `made` attempts, of which the last failed and was or was not final.
  abbrev pub Ended : String → String → String → ℕ → Bool → World db → List OutboxEvent → Type 0
  Ended org id type made is_final w events =
      (r : JobRow) × (message : String) × Sees org id w r
        (events ++ deaths org id type message is_final)
      × (r.type ≡ type)
      × (r.status ≡ fail_status is_final)
      × (r.attempts ≡ made)
      × (r.error ≡ some message)

  abbrev pub Failed : String → String → String → ℕ → World db → List OutboxEvent → Type 0
  Failed org id type made w events = Ended org id type made (leb max_job_attempts made) w events

  mark_job_failed-Ended :
      (org id type message : String) (is_final : Bool) (made : ℕ) (w : World db) (r : JobRow)
      (events : List OutboxEvent)
      → Sees org id w r events
      → r.type ≡ type
      → r.attempts ≡ made
      → Ended org id type made is_final (mark_job_failed db org id message is_final w) events
  unfolding mark_job_failed publish_job_progress get_job
  mark_job_failed-Ended org id type message true made w r events h t a =
      let (seen, sent) = update_many-Sees org id (fail_row message true) w r events refl h in
      (fail_row message true r, message, (seen, rw (h.0, ← t, sent)), t, refl, a, refl)
  mark_job_failed-Ended org id type message false made w r events h t a =
      let (seen, sent) = update_many-Sees org id (fail_row message false) w r events refl h in
      (
        fail_row message false r,
        message,
        (seen, ap (λ (es : List OutboxEvent). es ++ []) sent),
        t,
        refl,
        a,
        refl,
      )

  on_failed-Failed :
      (org id type : String) (err : JobError) (made : ℕ) (w : World db) (r : JobRow)
      (events : List OutboxEvent)
      → Sees org id w r events
      → r.type ≡ type
      → r.attempts ≡ made
      → Failed org id type made (on_failed db org id err made w) events
  unfolding on_failed
  on_failed-Failed org id type err made w r events h t a =
      mark_job_failed-Ended org id type (message_of db id err) (leb max_job_attempts made) made w r
        events h t a

  run_handler_lem :
      (org id type : String) (found : Option (String → Attempt)) (row : Option JobRow)
      (h : String → Attempt) (r : JobRow) (w : World db)
      → found ≡ some h
      → row ≡ some r
      → run_handler db org id type found row w
        ≡ finish db org id (h r.payload).outcome (report_all db org id (h r.payload).reports w)
  unfolding run_handler
  run_handler_lem org id type found row h r w e e' = rw (e, e', run_handler)

  -- One failing attempt of a series.
  pub after_process-Failed :
      (org id type : String) (g : Registry) (made : ℕ) (w : World db) (r : JobRow)
      (events : List OutboxEvent) (rest : World db → World db)
      → Fails type g
      → Sees org id w r events
      → r.type ≡ type
      → (w' : World db) × (after_process db org id made rest (process db org id type g made w)
          ≡ rest w')
        × Failed org id type (made + 1) w' events
  after_process-Failed org id type g made w r events rest (h, message, found, fails) seen t =
      let w1 = mark_job_running db org id (made + 1) w in
      let running-seen = mark_job_running-Sees org id (made + 1) w r events seen in
      let (p, done) = report_all-Sees org id (h r.payload).reports w1 _ events running-seen in
      let w2 = report_all db org id (h r.payload).reports w1 in
      let err = handler_failed (message r.payload) in
      let ends : process db org id type g made w ≡ (w2, threw err) =
        unfold process in
        run_handler_lem org id type (g type) (get_job db org id w1) h _ w1 found running-seen.0
        ∙ unfold finish in rw (fails r.payload, finish) in
      (
        on_failed db org id err (made + 1) w2,
        rw ends (unfold after_process in refl),
        on_failed-Failed org id type err (made + 1) w2 _ events done t refl,
      )

  -- The row and the events of an entry that has succeeded at its `made`-th attempt.
  abbrev pub Completed :
      String → String → String → String → ℕ → World db → List OutboxEvent → Type 0
  Completed org id type result made w events =
      (r : JobRow) × Sees org id w r (events ++ job_completed org id type ∷ [])
      × (r.type ≡ type)
      × (r.status ≡ completed)
      × (r.attempts ≡ made)
      × (r.progress ≡ 100)
      × (r.result ≡ some result)
      × (r.error ≡ none)

  complete-Sees :
      (org id result : String) (w : World db) (r : JobRow) (events : List OutboxEvent)
      → Sees org id w r events
      → Sees org id
          (complete db org id result (some r) w).0
          (complete_row result r)
          (events ++ job_completed org id r.type ∷ [])
  unfolding complete publish_job_progress get_job
  complete-Sees org id result w r events (seen, sent) = (
    put_seen org id w (complete_row result r) (visible-some db org (get w.jobs id) seen).1,
    ap (λ (es : List OutboxEvent). es ++ job_completed org id r.type ∷ []) sent,
  )

  mark_job_completed_lem :
      (org id result : String) (w : World db) (r : JobRow)
      → get_job db org id w ≡ some r
      → mark_job_completed db org id result w
        ≡ ((complete db org id result (some r) w).0, returned tt)
  unfolding mark_job_completed
  mark_job_completed_lem org id result w r seen = rw seen

  pub completes_once :
      (org id type result : String) (g : Registry) (rest : World db → World db) (made : ℕ)
      (w : World db) (r : JobRow) (events : List OutboxEvent)
      → Succeeds type result g
      → Sees org id w r events
      → r.type ≡ type
      → Completed org id type result
          (made + 1)
          (after_process db org id made rest (process db org id type g made w))
          events
  completes_once org id type result g rest made w r events (h, found, ends) seen t =
      let w1 = mark_job_running db org id (made + 1) w in
      let running-seen = mark_job_running-Sees org id (made + 1) w r events seen in
      let (p, done) = report_all-Sees org id (h r.payload).reports w1 _ events running-seen in
      let w2 = report_all db org id (h r.payload).reports w1 in
      let r2 : JobRow = record r {
        status = running;
        attempts = made + 1;
        started = true;
        progress = p;
      } in
      let w3 = (complete db org id result (some r2) w2).0 in
      let finishes : process db org id type g made w ≡ (w3, returned tt) =
        unfold process in
        run_handler_lem org id type (g type) (get_job db org id w1) h _ w1 found running-seen.0
        ∙ unfold finish in
          rw (ends r.payload, finish) (mark_job_completed_lem org id result w2 r2 done.0) in
      let (seen3, sent3) = complete-Sees org id result w2 r2 events done in
      rw finishes (
        unfold after_process in
        (complete_row result r2, (seen3, rw (← t) sent3), t, refl, refl, refl, refl, refl))
