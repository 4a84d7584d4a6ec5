-- ===== src/Events/Carried.antt =====
-- The outbox and the bus together: what polls put on JetStream.
use cloud_mesh.Common.{
  ◌≡◌, refl, ap, sym, ◌∙◌, String, Bool, true, false, Option, none, some, List, [], ◌∷◌, All, IsIn,
  zero, suc, subst, ◌⊎◌, inl, inr, ℕ,
}
use cloud_mesh.Json.{JsonValue}
use cloud_mesh.Outbox.{
  OutboxRow, PollResult, after_publish, poll_row, poll_rows, poll_outbox, over_row,
}
use cloud_mesh.Outbox.Poll.{polls}
use cloud_mesh.Events.Bus.{Published, publish_event}
use cloud_mesh.Events.JetStream.{IsTaken, Nats}

-- `table` has the type and the payload of each event of the outbox by its id, its primary key.
module _ (nats : Nats) (decode : String → JsonValue) (clock : nats.World → String)
    (table : String → String × String) where
  open nats use {World, publish, taken, publish-acked, publish-keeps, publish-only}

  -- What the poller is given as its publisher; `decode` is the value of a payload's text.
  unfoldable pub publish_row : String → String → String → World → World × Bool
  unfolding publish_event
  publish_row event_type payload id w =
      publish (publish_event event_type (decode payload) id (clock w)) w

  abbrev pub body_of : OutboxRow → String → JsonValue
  body_of r now = (publish_event r.event_type (decode r.payload) r.id now).body

  abbrev pub IsFromTable : OutboxRow → Type 0
  IsFromTable r = table r.id ≡ (r.event_type, r.payload)

  -- A message of the outbox: the event of its id, at some time.
  abbrev pub IsMessage : Published → Type 0
  IsMessage q =
      (now : String) × (q.body
        ≡ (publish_event (table q.msg_id).0 (decode (table q.msg_id).1) q.msg_id now).body)

  -- A row that was published is on the bus.
  abbrev pub IsOnBus : World → OutboxRow → Type 0
  IsOnBus w r = (r.published_at ≡ none) ⊎ IsTaken r.id (taken w)

  abbrev pub IsLater : World → World → Type 0
  IsLater w w' = (q : Published) → IsIn q (taken w) → IsIn q (taken w')

  -- All that was taken in is from the outbox.
  abbrev pub IsPure : World → Type 0
  IsPure w = (q : Published) → IsIn q (taken w) → IsMessage q

  later-IsOnBus : (w w' : World) (r : OutboxRow) → IsLater w w' → IsOnBus w r → IsOnBus w' r
  later-IsOnBus w w' r later (inl pending) = inl pending
  later-IsOnBus w w' r later (inr (q, h, same)) = inr (q, later q h, same)

  later-All :
      (w w' : World) (rows : List OutboxRow)
      → IsLater w w'
      → All (IsOnBus w) rows
      → All (IsOnBus w') rows
  later-All w w' [] later h = tt
  later-All w w' (r ∷ rows) later (h, hs) =
      (later-IsOnBus w w' r later h, later-All w w' rows later hs)

  row-IsMessage :
      (r : OutboxRow) (now : String)
      → IsFromTable r
      → IsMessage (publish_event r.event_type (decode r.payload) r.id now)
  unfolding publish_event
  row-IsMessage r now from =
      (now, ap (λ (e : String × String). (publish_event e.0 (decode e.1) r.id now).body) (sym from))

  published-IsPure :
      (r : OutboxRow) (w : World)
      → IsFromTable r
      → IsPure w
      → IsPure (publish_row r.event_type r.payload r.id w).0
  unfolding publish_row
  published-IsPure r w from pure q h =
      elim (publish-only (publish_event r.event_type (decode r.payload) r.id (clock w)) q w h) [
        | inl new ↦ subst IsMessage (sym new) (row-IsMessage r (clock w) from)
        | inr old ↦ pure q old
      ]

  -- After a poll, with the rows as they stand then.
  abbrev IsSound : World → List OutboxRow × World × PollResult → Type 0
  IsSound w (rows, w', result) =
      All (IsOnBus w') rows × All IsFromTable rows × IsPure w' × IsLater w w'

  over_row-IsSound :
      (w : World) (r : OutboxRow) (p : List OutboxRow × World × PollResult)
      → IsOnBus w r
      → IsFromTable r
      → IsSound w p
      → IsSound w (over_row publish_row r p)
  over_row-IsSound w r (rows, w', result) h from (all, froms, pure, later) =
      ((later-IsOnBus w w' r later h, all), (from, froms), pure, later)

  after_publish-IsSound :
      (now : ℕ) (r : OutboxRow) (rest : World → List OutboxRow × World × PollResult) (w : World)
      (answer : World × Bool)
      → r.published_at ≡ none
      → IsFromTable r
      → publish_row r.event_type r.payload r.id w ≡ answer
      → IsSound answer.0 (rest answer.0)
      → IsSound w (after_publish publish_row now r rest answer)
  unfolding publish_row publish_event
  after_publish-IsSound now r rest w (w₁, true) pending from is (all, froms, pure, later) =
      let acked : IsTaken r.id (taken w₁) =
        subst (λ (a : World × Bool). IsTaken r.id (taken a.0)) is
          (publish-acked _ w (ap (λ a. a.1) is)) in
      let (q, there, same) = acked in
      (
        (inr (q, later q there, same), all),
        (from, froms),
        pure,
        λ m h. later m (subst (λ a. IsIn m (taken a.0)) is (publish-keeps _ m w h)),
      )
  after_publish-IsSound now r rest w (w₁, false) pending from is (all, froms, pure, later) = (
    (inl pending, all),
    (from, froms),
    pure,
    λ m h. later m (subst (λ a. IsIn m (taken a.0)) is (publish-keeps _ m w h)),
  )

  poll_row-IsSound :
      (now left : ℕ) (r : OutboxRow) (at : Option ℕ)
      (rest : ℕ → World → List OutboxRow × World × PollResult) (w : World)
      → r.published_at ≡ at
      → IsOnBus w r
      → IsFromTable r
      → IsPure w
      → ((left : ℕ) (w' : World) → IsPure w' → IsLater w w' → IsSound w' (rest left w'))
      → IsSound w (poll_row publish_row now left r at rest w)
  unfolding publish_row publish_event
  poll_row-IsSound now left r (some t) rest w is h from pure rest_sound =
      over_row-IsSound w r (rest left w) h from (rest_sound left w pure (λ m on. on))
  poll_row-IsSound now zero r none rest w is h from pure rest_sound =
      over_row-IsSound w r (rest zero w) h from (rest_sound zero w pure (λ m on. on))
  poll_row-IsSound now (suc left) r none rest w is h from pure rest_sound =
      after_publish-IsSound now r (rest left) w (publish_row r.event_type r.payload r.id w) is from
        refl (rest_sound left _ (published-IsPure r w from pure) (λ m on. publish-keeps _ m w on))

  poll_rows-IsSound :
      (now : ℕ) (rows : List OutboxRow) (left : ℕ) (w : World)
      → All (IsOnBus w) rows
      → All IsFromTable rows
      → IsPure w
      → IsSound w (poll_rows publish_row now rows left w)
  unfolding poll_rows
  poll_rows-IsSound now [] left w h from pure = (tt, tt, pure, λ m on. on)
  poll_rows-IsSound now (r ∷ rows) left w (h, hs) (from, froms) pure =
      poll_row-IsSound now left r r.published_at (poll_rows publish_row now rows) w refl h from pure
        (λ left w' pure' later.
          poll_rows-IsSound now rows left w' (later-All w w' rows later hs) froms pure')

  -- However often the outbox is polled, and whatever the bus answers, a row that is marked as
  -- published is on the bus, and so is nothing that is not from the outbox.
  abbrev pub IsCarried : List OutboxRow × World → Type 0
  IsCarried (rows, w) = All (IsOnBus w) rows × All IsFromTable rows × IsPure w

  pub polls-IsCarried :
      (batch_size : ℕ) (times : List ℕ) (rows : List OutboxRow) (w : World)
      → IsCarried (rows, w)
      → IsCarried (polls publish_row batch_size times (rows, w))
  unfolding polls poll_outbox
  polls-IsCarried batch_size [] rows w h = h
  polls-IsCarried batch_size (now ∷ later) rows w (on, from, pure) =
      let (rows', w', result) = poll_outbox publish_row batch_size now rows w in
      let (all, froms, pure', kept) = poll_rows-IsSound now rows batch_size w on from pure in
      polls-IsCarried batch_size later rows' w' (all, froms, pure')

  -- The message with a row's id is the one that the row asks for.
  pub taken-body :
      (w : World) (r : OutboxRow)
      → IsPure w
      → IsFromTable r
      → IsTaken r.id (taken w)
      → (now : String) × (q : Published) × IsIn q (taken w) × (q.body ≡ body_of r now)
  unfolding publish_event
  taken-body w r pure from (q, there, same) =
      let (now, is) = pure q there in
      (
        now,
        q,
        there,
        is
            ∙ (ap (λ id. (publish_event (table id).0 (decode (table id).1) id now).body) same
                ∙ ap (λ (e : String × String). (publish_event e.0 (decode e.1) r.id now).body)
                    from),
      )
