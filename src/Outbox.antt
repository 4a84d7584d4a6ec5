-- ===== src/Outbox.antt =====
-- packages/outbox/src/outbox.ts: the poller of the transactional outbox. The table is the oldest row
-- first; a row is updated by its primary key, so the loop changes the row at hand. `W` is the event
-- bus, whose publisher is an argument and answers whether it took the event.
pub mod Given
pub mod Poll
mod Tests
use cloud_mesh.Common.{
  ℕ, zero, suc, ◌+◌, String, Bool, true, false, Option, none, some, List, [], ◌∷◌, ◌++◌,
}

pub record OutboxRow : Type 0 where
  pub id : String
  pub event_type : String
  pub payload : String
  pub published_at : Option ℕ

unfoldable pub write_outbox_event : String → String → String → List OutboxRow → List OutboxRow
write_outbox_event id event_type payload rows =
    rows ++ record { id = id; event_type = event_type; payload = payload; published_at = none } ∷ []

pub record PollResult : Type 0 where
  pub attempted : ℕ
  pub published : ℕ

module _ {W : Type 0} (publish : String → String → String → W → W × Bool) where
  abbrev pub Polled : Type 0
  Polled = List OutboxRow × W × PollResult

  abbrev pub over_row : OutboxRow → Polled → Polled
  over_row r (rows, w, result) = (r ∷ rows, w, result)

  -- One event of the batch, for what the publisher answered; `otherwise` is the rest of the batch.
  abbrev pub after_publish : ℕ → OutboxRow → (W → Polled) → W × Bool → Polled
  after_publish now r otherwise (w, true) =
      let (rows, w', result) = otherwise w in
      (
        record r { published_at = some now } ∷ rows,
        w',
        record { attempted = suc result.attempted; published = suc result.published },
      )
  after_publish now r otherwise (w, false) =
      let (rows, w', result) = otherwise w in
      (r ∷ rows, w', record result { attempted = suc result.attempted })

  -- The pending rows are those with no `published_at`, and `left` of them are still taken.
  abbrev pub poll_row : ℕ → ℕ → OutboxRow → Option ℕ → (ℕ → W → Polled) → W → Polled
  poll_row now left r (some t) rest w = over_row r (rest left w)
  poll_row now zero r none rest w = over_row r (rest zero w)
  poll_row now (suc left) r none rest w =
      after_publish now r (rest left) (publish r.event_type r.payload r.id w)

  unfoldable pub poll_rows : ℕ → List OutboxRow → ℕ → W → Polled
  poll_rows now [] left w = ([], w, record { attempted = 0; published = 0 })
  poll_rows now (r ∷ rows) left w = poll_row now left r r.published_at (poll_rows now rows) w

  unfoldable pub poll_outbox : ℕ → ℕ → List OutboxRow → W → Polled
  unfolding poll_rows
  poll_outbox batch_size now rows w = poll_rows now rows batch_size w
