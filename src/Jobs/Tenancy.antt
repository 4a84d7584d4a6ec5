-- ===== src/Jobs/Tenancy.antt =====
-- No operation of one organization shows in what another sees.
use cloud_mesh.Common.{
  ℕ, ◌≡◌, ◌≢◌, refl, sym, ◌∙◌, String, true, false, Option, none, some, arith, str_eq, eq_iff, inl,
  inr, Bool-cases,
}
use cloud_mesh.Common.KeyValue.{KeyValue}
use cloud_mesh.Jobs.Queue.{is_dead_letter}
use cloud_mesh.Jobs.{
  to_priority_value, JobRow, Percent, World, get_job, update_many, mark_job_running,
  update_job_progress, mark_job_completed, mark_job_failed, visible, write, publish_job_progress,
  complete_row, complete,
}
use cloud_mesh.Jobs.Queue.{
  CreateJobInput, create_job, replay_job, replay, requeue, replayed_row, new_row, submit,
}

module _ (db : KeyValue JobRow) where
  open db use {get, put, get-put}

  -- What a visible row is in the table.
  pub visible-some :
      (org : String) (row : Option JobRow) {r : JobRow}
      → visible org row ≡ some r
      → (row ≡ some r) × (r.org_id ≡ org)
  visible-some org none h = cc
  visible-some org (some r) h = ground (arith, eq_iff r.org_id org)

  pub visible_own : (org : String) (r : JobRow) → r.org_id ≡ org → visible org (some r) ≡ some r
  visible_own org r h = ground (arith, eq_iff r.org_id org)

  -- Two rows of one organization are both unseen by another.
  unseen :
      (org other : String) (r : JobRow)
      → r.org_id ≡ org
      → org ≢ other
      → visible other (some r) ≡ none
  unseen org other r h ne = ground (arith, eq_iff r.org_id other, ne)

  pub write_elsewhere :
      (org other id jd : String) (row : Option JobRow) (change : JobRow → JobRow) (w : World db)
      → org ≢ other
      → ((r : JobRow) → (change r).org_id ≡ r.org_id)
      → visible org (get w.jobs id) ≡ row
      → get_job db other jd (write db id row change w) ≡ get_job db other jd w
  unfolding get_job
  write_elsewhere org other id jd none change w ne keeps h = refl
  write_elsewhere org other id jd (some r) change w ne keeps h =
      let (there, own) = visible-some org (get w.jobs id) h in
      rw (get-put w.jobs id jd (change r)) (elim (Bool-cases (str_eq id jd)) [
        | inl same ↦
            rw (same, ← (eq_iff id jd).0 same, there)
              (unseen org other (change r) (keeps r ∙ own) ne ∙ sym (unseen org other r own ne))
        | inr else' ↦ rw else'
      ])

  update_many_elsewhere :
      (org other id jd : String) (change : JobRow → JobRow) (w : World db)
      → org ≢ other
      → ((r : JobRow) → (change r).org_id ≡ r.org_id)
      → get_job db other jd (update_many db org id change w) ≡ get_job db other jd w
  unfolding update_many get_job
  update_many_elsewhere org other id jd change w ne keeps =
      write_elsewhere org other id jd (visible org (get w.jobs id)) change w ne keeps refl

  completed_elsewhere :
      (org other id jd result : String) (row : Option JobRow) (w : World db)
      → org ≢ other
      → visible org (get w.jobs id) ≡ row
      → get_job db other jd (complete db org id result row w).0 ≡ get_job db other jd w
  unfolding get_job complete publish_job_progress
  completed_elsewhere org other id jd result none w ne h = refl
  completed_elsewhere org other id jd result (some r) w ne h =
      write_elsewhere org other id jd (some r) (complete_row result) w ne (λ x. refl) h

  -- What an organization's requests and jobs do to the table.
  pub data Operation : Type 0 where
    creates : String → String → CreateJobInput → Operation
    runs : String → ℕ → Operation
    reports : String → Percent → Operation
    completes fails_for_good fails_for_now : String → String → Operation
    replays : String → String → Operation

  unfoldable pub perform : String → Operation → World db → World db
  perform org (creates id bull_id input) w =
      (create_job db id bull_id (record input { org_id = org }) w).0
  perform org (runs id attempt) w = mark_job_running db org id attempt w
  perform org (reports id percent) w = update_job_progress db org id percent w
  perform org (completes id result) w = (mark_job_completed db org id result w).0
  perform org (fails_for_good id message) w = mark_job_failed db org id message true w
  perform org (fails_for_now id message) w = mark_job_failed db org id message false w
  perform org (replays id bull_id) w = (replay_job db org id bull_id w).0

  -- The id that the database gives a new row is no row's yet.
  abbrev pub IsFresh : Operation → World db → Type 0
  IsFresh (creates id bull_id input) w = get w.jobs id ≡ none
  IsFresh _ w = Unit {0}

  insert_elsewhere :
      (org other id jd : String) (row : JobRow) (w : World db)
      → row.org_id ≡ org
      → org ≢ other
      → get w.jobs id ≡ none
      → get_job db other jd (record w { jobs = put w.jobs id row }) ≡ get_job db other jd w
  unfolding get_job
  insert_elsewhere org other id jd row w own ne new =
      rw (get-put w.jobs id jd row) (elim (Bool-cases (str_eq id jd)) [
        | inl same ↦ rw (same, ← (eq_iff id jd).0 same, new) (unseen org other row own ne)
        | inr differs ↦ rw differs
      ])

  submit_elsewhere :
      (org other id bull_id jd : String) (input : CreateJobInput) (priority : Option ℕ)
      (w : World db)
      → input.org_id ≡ org
      → org ≢ other
      → get w.jobs id ≡ none
      → get_job db other jd (submit db id bull_id input priority w).0 ≡ get_job db other jd w
  unfolding submit
  submit_elsewhere org other id bull_id jd input none w own ne new = refl
  submit_elsewhere org other id bull_id jd input (some p) w own ne new =
      update_many_elsewhere input.org_id other id jd _ _ (rw own ne) (λ r. refl)
      ∙ (unfold get_job in insert_elsewhere org other id jd (new_row input p) w own ne new)

  create_elsewhere :
      (org other id bull_id jd : String) (input : CreateJobInput) (w : World db)
      → org ≢ other
      → get w.jobs id ≡ none
      → get_job db other jd (create_job db id bull_id (record input { org_id = org }) w).0
        ≡ get_job db other jd w
  unfolding create_job
  create_elsewhere org other id bull_id jd input w ne new =
      submit_elsewhere org other id bull_id jd (record input { org_id = org })
        (to_priority_value input.priority) w refl ne new

  replay_elsewhere :
      (org other id bull_id jd : String) (row : Option JobRow) (w : World db)
      → org ≢ other
      → visible org (get w.jobs id) ≡ row
      → get_job db other jd (replay db org id bull_id row w).0 ≡ get_job db other jd w
  unfolding replay requeue
  replay_elsewhere org other id bull_id jd none w ne h = refl
  replay_elsewhere org other id bull_id jd (some r) w ne h =
      elim (Bool-cases (is_dead_letter r.status)) [
        | inl dead ↦
            rw (dead, replay)
              (update_many_elsewhere org other id jd _ _ ne (λ x. refl)
                ∙ (unfold get_job in
                    write_elsewhere org other id jd (some r) replayed_row w ne (λ x. refl) h))
        | inr alive ↦ rw (alive, replay)
      ]

  -- Whatever an organization does, and whichever ids it names, another organization finds the same
  -- under every id, as long as a new row's id is no row's yet.
  pub perform_elsewhere :
      (org other jd : String) (op : Operation) (w : World db)
      → org ≢ other
      → IsFresh op w
      → get_job db other jd (perform org op w) ≡ get_job db other jd w
  unfolding perform get_job mark_job_running update_job_progress mark_job_completed mark_job_failed
      publish_job_progress replay_job
  perform_elsewhere org other jd (creates id bull_id input) w ne fresh =
      create_elsewhere org other id bull_id jd input w ne fresh
  perform_elsewhere org other jd (runs id attempt) w ne fresh =
      update_many_elsewhere org other id jd _ w ne (λ r. refl)
  perform_elsewhere org other jd (reports id percent) w ne fresh =
      update_many_elsewhere org other id jd _ w ne (λ r. refl)
  perform_elsewhere org other jd (completes id result) w ne fresh =
      completed_elsewhere org other id jd result (get_job db org id w) w ne refl
  perform_elsewhere org other jd (fails_for_good id message) w ne fresh =
      update_many_elsewhere org other id jd _ w ne (λ r. refl)
  perform_elsewhere org other jd (fails_for_now id message) w ne fresh =
      update_many_elsewhere org other id jd _ w ne (λ r. refl)
  perform_elsewhere org other jd (replays id bull_id) w ne fresh =
      replay_elsewhere org other id bull_id jd (get_job db org id w) w ne refl
