-- ===== src/Jobs/Lifecycle.antt =====
-- The life of a queue entry from submission to completion or to the dead letters.
use mathlib.Core.List.{append-nil}
use cloud_mesh.Common.{
  ℕ, ◌+◌, ◌≤◌, ◌<◌, ◌≡◌, refl, ◌∙◌, String, Bool, true, false, some, List, [], ◌∷◌, ◌++◌, arith,
  length, leb, All,
}
use cloud_mesh.Common.KeyValue.{KeyValue}
use cloud_mesh.Jobs.{JobRow, World, get_job, OutboxEvent, max_job_attempts}
use cloud_mesh.Jobs.Worker.{Registry, attempts_in_turn}
use cloud_mesh.Jobs.Rows.{
  Sees, Fails, Succeeds, deaths, Failed, Completed, after_process-Failed, completes_once,
}

module _ (db : KeyValue JobRow) where
  deaths_none :
      (org id type message : String) (is_final : Bool) (events : List OutboxEvent)
      → is_final ≡ false
      → events ++ deaths db org id type message is_final ≡ events
  deaths_none org id type message true events h = cc
  deaths_none org id type message false events h = append-nil events

  no_deaths :
      (org id type : String) (made : ℕ) (w : World db) (events : List OutboxEvent)
      → made < max_job_attempts
      → Failed db org id type made w events
      → (r : JobRow) × Sees db org id w r events × (r.type ≡ type)
  no_deaths org id type made w events h (r, message, (seen, sent), t, s, a, e) = (
    r,
    (
      seen,
      sent ∙ deaths_none org id type message (leb max_job_attempts made) events (ground arith),
    ),
    t,
  )

  attempts_end :
      (org id type : String) (g : Registry) (gs : List Registry) (made : ℕ) (w : World db)
      (r : JobRow) (events : List OutboxEvent)
      → All (Fails db type) (g ∷ gs)
      → made + length (g ∷ gs) ≤ max_job_attempts
      → Sees db org id w r events
      → r.type ≡ type
      → Failed db org id type
          (made + length (g ∷ gs))
          (attempts_in_turn db org id type made (g ∷ gs) w)
          events
  unfolding attempts_in_turn
  attempts_end org id type g [] made w r events fails h seen t =
      let (w', same, failed) =
        after_process-Failed db org id type g made w r events
          (attempts_in_turn db org id type (made + 1) []) fails.0 seen t in
      rw same failed
  attempts_end org id type g (g' ∷ gs) made w r events fails h seen t =
      let (w', same, failed) =
        after_process-Failed db org id type g made w r events
          (attempts_in_turn db org id type (made + 1) (g' ∷ gs)) fails.0 seen t in
      let (r', seen', t') = no_deaths org id type (made + 1) w' events (omega arith) failed in
      let count : made + length (g ∷ g' ∷ gs) ≡ made + 1 + length (g' ∷ gs) = omega arith in
      rw (same, count)
        (attempts_end org id type g' gs (made + 1) w' r' events fails.1 (omega arith) seen' t')

  -- A series of attempts that all fail, between one and three of them, on a row that its
  -- organization sees: the row counts them and keeps an error message, and it is DEAD_LETTER with
  -- one `job.failed` event sent if they are three, and FAILED with none sent if they are fewer.
  pub attempts_in_turn-Failed :
      (org id type : String) (g : Registry) (gs : List Registry) (w : World db) (r : JobRow)
      → All (Fails db type) (g ∷ gs)
      → length (g ∷ gs) ≤ max_job_attempts
      → get_job db org id w ≡ some r
      → r.type ≡ type
      → Failed db org id type
          (length (g ∷ gs))
          (attempts_in_turn db org id type 0 (g ∷ gs) w)
          w.outbox
  attempts_in_turn-Failed org id type g gs w r fails h seen t =
      let count : 0 + length (g ∷ gs) ≡ length (g ∷ gs) = omega arith in
      rw count at (attempts_end org id type g gs 0 w r w.outbox fails (omega arith) (seen, refl) t)

  attempts_succeed :
      (org id type result : String) (gs : List Registry) (g : Registry) (made : ℕ) (w : World db)
      (r : JobRow) (events : List OutboxEvent)
      → All (Fails db type) gs
      → Succeeds db type result g
      → made + length gs < max_job_attempts
      → Sees db org id w r events
      → r.type ≡ type
      → Completed db org id type result
          (made + length gs + 1)
          (attempts_in_turn db org id type made (gs ++ g ∷ []) w)
          events
  unfolding attempts_in_turn
  attempts_succeed org id type result [] g made w r events fails ends h seen t =
      let count : made + length {A = Registry} [] + 1 ≡ made + 1 = omega arith in
      rw count (
        completes_once db org id type result g (attempts_in_turn db org id type (made + 1) []) made
          w r events ends seen t)
  attempts_succeed org id type result (g' ∷ gs) g made w r events fails ends h seen t =
      let (w', same, failed) =
        after_process-Failed db org id type g' made w r events
          (attempts_in_turn db org id type (made + 1) (gs ++ g ∷ [])) fails.0 seen t in
      let (r', seen', t') = no_deaths org id type (made + 1) w' events (omega arith) failed in
      let count : made + length (g' ∷ gs) + 1 ≡ made + 1 + length gs + 1 = omega arith in
      rw (same, count)
        (attempts_succeed org id type result gs g (made + 1) w' r' events fails.1 ends (omega arith)
          seen' t')

  -- A series of at most two attempts that fail and one that succeeds, on a row that its
  -- organization sees: the row is COMPLETED with the result, at 100 percent and with no error left,
  -- it counts the attempts, and exactly one event is sent, `job.completed`.
  pub attempts_in_turn-Completed :
      (org id type result : String) (gs : List Registry) (g : Registry) (w : World db) (r : JobRow)
      → All (Fails db type) gs
      → Succeeds db type result g
      → length gs < max_job_attempts
      → get_job db org id w ≡ some r
      → r.type ≡ type
      → Completed db org id type result
          (length gs + 1)
          (attempts_in_turn db org id type 0 (gs ++ g ∷ []) w)
          w.outbox
  attempts_in_turn-Completed org id type result gs g w r fails ends h seen t =
      let count : 0 + length gs + 1 ≡ length gs + 1 = omega arith in
      rw count at (
        attempts_succeed org id type result gs g 0 w r w.outbox fails ends (omega arith)
          (seen, refl) t)
