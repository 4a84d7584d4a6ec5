-- ===== src/Outbox/Poll.antt =====
-- What a poll does to the pending rows, and that polls empty the outbox.
use cloud_mesh.Common.{
  ℕ, zero, suc, ◌+◌, ◌-◌, ◌*◌, ◌≤◌, min, ◌≡◌, refl, sym, ap, ◌∙◌, String, Bool, true, false, Option,
  none, some, List, [], ◌∷◌, arith, length, take,
}
use cloud_mesh.Outbox.Given.{
  pending_rows, drop, Takes, publish_each, poll_rows-IsGiven, given_in_turn, drop_in_turn,
}
use cloud_mesh.Outbox.{
  OutboxRow, PollResult, over_row, after_publish, poll_row, poll_rows, poll_outbox,
}

abbrev pub pending_one : Option ℕ → ℕ
pending_one none = 1
pending_one (some t) = 0

abbrev pub pending : List OutboxRow → ℕ
pending [] = 0
pending (r ∷ rs) = pending_one r.published_at + pending rs

-- A row with what a poll may change left out.
abbrev pub content : List OutboxRow → List (String × String × String)
content [] = []
content (r ∷ rs) = (r.id, r.event_type, r.payload) ∷ content rs

module _ {W : Type 0} (publish : String → String → String → W → W × Bool) where
  -- The rows stay, each published one is pending no more, and no more are tried than the batch has.
  abbrev pub IsPolled : ℕ → List OutboxRow → List OutboxRow × W × PollResult → Type 0
  IsPolled left rows (rows', w, result) =
      (content rows' ≡ content rows)
      × (pending rows' + result.published ≡ pending rows)
      × (result.attempted ≡ min left (pending rows))
      × (result.published ≤ result.attempted)

  over_row-IsPolled :
      (left : ℕ) (r : OutboxRow) (rows : List OutboxRow) (p : List OutboxRow × W × PollResult)
      → min left (pending_one r.published_at + pending rows) ≡ min left (pending rows)
      → IsPolled left rows p
      → IsPolled left (r ∷ rows) (over_row publish r p)
  over_row-IsPolled left r rows (rows', w, result) is (same, count, tried, le) =
      (ap (λ c. (r.id, r.event_type, r.payload) ∷ c) same, omega arith, tried ∙ sym is, le)

  after_publish-IsPolled :
      (now left : ℕ) (r : OutboxRow) (rows : List OutboxRow)
      (rest : W → List OutboxRow × W × PollResult) (answer : W × Bool)
      → pending_one r.published_at ≡ 1
      → ((w : W) → IsPolled left rows (rest w))
      → IsPolled (suc left) (r ∷ rows) (after_publish publish now r rest answer)
  after_publish-IsPolled now left r rows rest (w, true) one h =
      let (same, count, tried, le) = h w in
      (ap (λ c. (r.id, r.event_type, r.payload) ∷ c) same, omega arith, omega arith, omega arith)
  after_publish-IsPolled now left r rows rest (w, false) one h =
      let (same, count, tried, le) = h w in
      (ap (λ c. (r.id, r.event_type, r.payload) ∷ c) same, omega arith, omega arith, omega arith)

  poll_row-IsPolled :
      (now left : ℕ) (r : OutboxRow) (rows : List OutboxRow) (at : Option ℕ)
      (rest : ℕ → W → List OutboxRow × W × PollResult) (w : W)
      → r.published_at ≡ at
      → ((left : ℕ) (w : W) → IsPolled left rows (rest left w))
      → IsPolled left (r ∷ rows) (poll_row publish now left r at rest w)
  poll_row-IsPolled now left r rows (some t) rest w is h =
      let none_more : pending_one r.published_at ≡ 0 = ap pending_one is in
      over_row-IsPolled left r rows (rest left w)
        (ap (λ k. min left (k + pending rows)) none_more ∙ omega arith) (h left w)
  poll_row-IsPolled now zero r rows none rest w is h =
      over_row-IsPolled zero r rows (rest zero w) (omega arith) (h zero w)
  poll_row-IsPolled now (suc left) r rows none rest w is h =
      after_publish-IsPolled now left r rows (rest left) (publish r.event_type r.payload r.id w)
        (ap pending_one is) (h left)

  poll_rows-IsPolled :
      (now : ℕ) (rows : List OutboxRow) (left : ℕ) (w : W)
      → IsPolled left rows (poll_rows publish now rows left w)
  unfolding poll_rows
  poll_rows-IsPolled now [] left w = (refl, refl, omega arith, omega arith)
  poll_rows-IsPolled now (r ∷ rows) left w =
      poll_row-IsPolled now left r rows r.published_at (poll_rows publish now rows) w refl
        (λ left w. poll_rows-IsPolled now rows left w)

  pub poll_outbox-IsPolled :
      (batch_size now : ℕ) (rows : List OutboxRow) (w : W)
      → IsPolled batch_size rows (poll_outbox publish batch_size now rows w)
  unfolding poll_outbox
  poll_outbox-IsPolled batch_size now rows w = poll_rows-IsPolled now rows batch_size w

  abbrev pub AllPublished : List OutboxRow × W × PollResult → Type 0
  AllPublished (rows, w, result) = result.published ≡ result.attempted

  after_publish-AllPublished :
      (now : ℕ) (r : OutboxRow) (rest : W → List OutboxRow × W × PollResult) (answer : W × Bool)
      → answer.1 ≡ true
      → ((w : W) → AllPublished (rest w))
      → AllPublished (after_publish publish now r rest answer)
  after_publish-AllPublished now r rest (w, true) took h = ap suc (h w)
  after_publish-AllPublished now r rest (w, false) took h = cc

  poll_row-AllPublished :
      (now left : ℕ) (r : OutboxRow) (at : Option ℕ)
      (rest : ℕ → W → List OutboxRow × W × PollResult) (w : W)
      → Takes publish
      → ((left : ℕ) (w : W) → AllPublished (rest left w))
      → AllPublished (poll_row publish now left r at rest w)
  poll_row-AllPublished now left r (some t) rest w took h = h left w
  poll_row-AllPublished now zero r none rest w took h = h zero w
  poll_row-AllPublished now (suc left) r none rest w took h =
      after_publish-AllPublished now r (rest left) (publish r.event_type r.payload r.id w)
        (took r.event_type r.payload r.id w) (h left)

  poll_rows-AllPublished :
      (now : ℕ) (rows : List OutboxRow) (left : ℕ) (w : W)
      → Takes publish
      → AllPublished (poll_rows publish now rows left w)
  unfolding poll_rows
  poll_rows-AllPublished now [] left w took = refl
  poll_rows-AllPublished now (r ∷ rows) left w took =
      poll_row-AllPublished now left r r.published_at (poll_rows publish now rows) w took
        (λ left w. poll_rows-AllPublished now rows left w took)

  -- Polls one after another, by their times.
  unfoldable pub polls : ℕ → List ℕ → List OutboxRow × W → List OutboxRow × W
  unfolding poll_outbox
  polls batch_size [] s = s
  polls batch_size (now ∷ later) (rows, w) =
      let (rows', w', result) = poll_outbox publish batch_size now rows w in
      polls batch_size later (rows', w')

  drained :
      (batch_size n before after published attempted : ℕ)
      → after + published ≡ before
      → attempted ≡ min batch_size before
      → published ≡ attempted
      → after - n * batch_size ≡ before - suc n * batch_size
  drained batch_size n before after published attempted h k l = grind arith

  -- While the publisher takes every event, polls give it the pending events, oldest first, each
  -- once and with its type, its payload and its id, a full batch of them with each poll. Exactly the
  -- rows after these are still pending, so that enough polls leave none, and the events themselves
  -- stay as they were written.
  pub polls_drain :
      (batch_size : ℕ) (times : List ℕ) (rows : List OutboxRow) (w : W)
      → Takes publish
      → ((polls batch_size times (rows, w)).1
          ≡ publish_each publish (take (length times * batch_size) (pending_rows rows)) w)
        × (pending_rows (polls batch_size times (rows, w)).0
            ≡ drop (length times * batch_size) (pending_rows rows))
        × (pending (polls batch_size times (rows, w)).0 ≡ pending rows - length times * batch_size)
        × (content (polls batch_size times (rows, w)).0 ≡ content rows)
  unfolding polls poll_outbox
  polls_drain batch_size [] rows w took =
      let nothing : 0 ≡ length {A = ℕ} [] * batch_size = omega arith in
      rw (← nothing) (refl, refl, omega arith, refl)
  polls_drain batch_size (now ∷ later) rows w took =
      let (rows', w', result) = poll_outbox publish batch_size now rows w in
      let (same, count, tried, le) = poll_outbox-IsPolled batch_size now rows w in
      let (given, next) = poll_rows-IsGiven publish now rows batch_size w took in
      let (all_given, rest, left, kept) = polls_drain batch_size later rows' w' took in
      let n = length later * batch_size in
      let all : batch_size + n ≡ length (now ∷ later) * batch_size = omega arith in
      rw (← all) (
        all_given
            ∙ (ap (λ rs. publish_each publish (take n rs) w') next
                ∙ (ap (publish_each publish (take n (drop batch_size (pending_rows rows)))) given
                    ∙ given_in_turn publish batch_size n (pending_rows rows) w)),
        rest ∙ (ap (drop n) next ∙ drop_in_turn batch_size n (pending_rows rows)),
        left
            ∙ (drained batch_size (length later) (pending rows) (pending rows') result.published
                  result.attempted count tried (poll_rows-AllPublished now rows batch_size w took)
                ∙ ap (λ k. pending rows - k) (sym all)),
        kept ∙ same,
      )
