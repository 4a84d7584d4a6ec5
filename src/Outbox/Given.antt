-- ===== src/Outbox/Given.antt =====
-- What a poll gives to the publisher, and which rows it leaves pending.
use cloud_mesh.Common.{
  ℕ, zero, suc, ◌+◌, ◌≡◌, refl, sym, ap, ◌∙◌, String, Bool, true, false, Option, none, some, List,
  [], ◌∷◌, arith, take,
}
use cloud_mesh.Outbox.{OutboxRow, PollResult, after_publish, poll_row, poll_rows}

-- The pending rows themselves, oldest first.
abbrev pub keep_pending : OutboxRow → Option ℕ → List OutboxRow → List OutboxRow
keep_pending r none rs = r ∷ rs
keep_pending r (some t) rs = rs

abbrev pub pending_rows : List OutboxRow → List OutboxRow
pending_rows [] = []
pending_rows (r ∷ rs) = keep_pending r r.published_at (pending_rows rs)

abbrev pub drop {ℓ} : {A : Type ℓ} → ℕ → List A → List A
drop zero xs = xs
drop (suc n) [] = []
drop (suc n) (x ∷ xs) = drop n xs

take_none : (n : ℕ) → take {A = OutboxRow} n [] ≡ []
take_none zero = refl
take_none (suc n) = refl

drop_none : (n : ℕ) → drop {A = OutboxRow} n [] ≡ []
drop_none zero = refl
drop_none (suc n) = refl

pub drop_in_turn : (n m : ℕ) (rs : List OutboxRow) → drop m (drop n rs) ≡ drop (n + m) rs
drop_in_turn zero m rs = let same : m ≡ 0 + m = omega arith in ap (λ k. drop k rs) same
drop_in_turn (suc n) m [] = drop_none m ∙ sym (drop_none (suc n + m))
drop_in_turn (suc n) m (r ∷ rs) =
    let same : suc (n + m) ≡ suc n + m = omega arith in
    drop_in_turn n m rs ∙ ap (λ k. drop k (r ∷ rs)) same

module _ {W : Type 0} (publish : String → String → String → W → W × Bool) where
  -- A publisher that takes every event.
  abbrev pub Takes : Type 0
  Takes = (event_type payload id : String) (w : W) → (publish event_type payload id w).1 ≡ true

  -- What the bus becomes when it is given these rows, one after another.
  abbrev pub publish_each : List OutboxRow → W → W
  publish_each [] w = w
  publish_each (r ∷ rs) w = publish_each rs (publish r.event_type r.payload r.id w).0

  -- The bus was given the first pending rows, each as it stands, and those are pending no more.
  abbrev pub IsGiven : ℕ → List OutboxRow → W → List OutboxRow × W × PollResult → Type 0
  IsGiven left rows w (rows', w', result) =
      (w' ≡ publish_each (take left (pending_rows rows)) w)
      × (pending_rows rows' ≡ drop left (pending_rows rows))

  after_publish-IsGiven :
      (now left : ℕ) (r : OutboxRow) (rows : List OutboxRow)
      (rest : W → List OutboxRow × W × PollResult) (answer : W × Bool) (w : W)
      → pending_rows (r ∷ rows) ≡ r ∷ pending_rows rows
      → publish r.event_type r.payload r.id w ≡ answer
      → answer.1 ≡ true
      → ((w : W) → IsGiven left rows w (rest w))
      → IsGiven (suc left) (r ∷ rows) w (after_publish publish now r rest answer)
  after_publish-IsGiven now left r rows rest (w', false) w first is took h = cc
  after_publish-IsGiven now left r rows rest (w', true) w first is took h =
      let (given, later) = h w' in
      rw (first) (
        given ∙ ap (λ (a : W × Bool). publish_each (take left (pending_rows rows)) a.0) (sym is),
        later,
      )

  poll_row-IsGiven :
      (now left : ℕ) (r : OutboxRow) (rows : List OutboxRow) (at : Option ℕ)
      (rest : ℕ → W → List OutboxRow × W × PollResult) (w : W)
      → Takes
      → r.published_at ≡ at
      → ((left : ℕ) (w : W) → IsGiven left rows w (rest left w))
      → IsGiven left (r ∷ rows) w (poll_row publish now left r at rest w)
  poll_row-IsGiven now left r rows (some t) rest w took is h =
      let (given, later) = h left w in
      let over : (rs : List OutboxRow) → keep_pending r r.published_at rs ≡ rs =
        λ rs. ap (λ a. keep_pending r a rs) is in
      (
        given ∙ ap (λ rs. publish_each (take left rs) w) (sym (over (pending_rows rows))),
        over (pending_rows (rest left w).0)
            ∙ (later ∙ ap (drop left) (sym (over (pending_rows rows)))),
      )
  poll_row-IsGiven now zero r rows none rest w took is h =
      let (given, later) = h zero w in (given, ap (keep_pending r r.published_at) later)
  poll_row-IsGiven now (suc left) r rows none rest w took is h =
      after_publish-IsGiven now left r rows (rest left) (publish r.event_type r.payload r.id w) w
        (ap (λ a. keep_pending r a (pending_rows rows)) is) refl
        (took r.event_type r.payload r.id w) (h left)

  pub poll_rows-IsGiven :
      (now : ℕ) (rows : List OutboxRow) (left : ℕ) (w : W)
      → Takes
      → IsGiven left rows w (poll_rows publish now rows left w)
  unfolding poll_rows
  poll_rows-IsGiven now [] zero w took = (refl, refl)
  poll_rows-IsGiven now [] (suc left) w took = (refl, refl)
  poll_rows-IsGiven now (r ∷ rows) left w took =
      poll_row-IsGiven now left r rows r.published_at (poll_rows publish now rows) w took refl
        (λ left w. poll_rows-IsGiven now rows left w took)

  pub given_in_turn :
      (n m : ℕ) (rs : List OutboxRow) (w : W)
      → publish_each (take m (drop n rs)) (publish_each (take n rs) w)
        ≡ publish_each (take (n + m) rs) w
  given_in_turn zero m rs w =
      let same : m ≡ 0 + m = omega arith in ap (λ k. publish_each (take k rs) w) same
  given_in_turn (suc n) m [] w =
      ap (λ rs. publish_each rs w) (take_none m ∙ sym (take_none (suc n + m)))
  given_in_turn (suc n) m (r ∷ rs) w =
      let same : suc (n + m) ≡ suc n + m = omega arith in
      given_in_turn n m rs (publish r.event_type r.payload r.id w).0
      ∙ ap (λ k. publish_each (take k (r ∷ rs)) w) same
