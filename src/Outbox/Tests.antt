-- ===== src/Outbox/Tests.antt =====
-- Runs of the poller, and its theorem at a concrete outbox.
use cloud_mesh.Common.{
  ◌-◌, ◌*◌, ◌≡◌, refl, String, Bool, true, not, List, [], ◌∷◌, ◌++◌, str_eq, take,
}
use cloud_mesh.Outbox.{OutboxRow, write_outbox_event, poll_rows, poll_outbox}
use cloud_mesh.Outbox.Given.{pending_rows, drop, publish_each}
use cloud_mesh.Outbox.Poll.{pending, content, polls, polls_drain}

-- A bus that keeps the ids, and refuses events of one type.
abbrev publish : String → String → String → List String → List String × Bool
publish event_type payload id log = (log ++ id ∷ [], not (str_eq event_type "bad"))

abbrev rows : List OutboxRow
rows =
    write_outbox_event "e3" "usage.recorded" "3"
      (write_outbox_event "e2" "bad" "2" (write_outbox_event "e1" "usage.recorded" "1" []))

-- The event that fails stays, and the one after it is published.
one_fails : pending (polls publish 50 (7 ∷ []) (rows, [])).0 ≡ 1
unfolding polls poll_outbox poll_rows write_outbox_event
one_fails = refl

-- A failing event at the head of each batch is tried again, and the next one is not reached.
held_up :
    (polls publish 1 (7 ∷ 8 ∷ []) (write_outbox_event "e2" "bad" "2" [] ++ rows, [])).1
    ≡ "e2" ∷ "e2" ∷ []
unfolding polls poll_outbox poll_rows write_outbox_event
held_up = refl

abbrev take_all : String → String → String → List String → List String × Bool
take_all event_type payload id log = (log ++ id ∷ [], true)

polls_drain_example :
    ((polls take_all 2 (7 ∷ 8 ∷ []) (rows, [])).1
      ≡ publish_each take_all (take (2 * 2) (pending_rows rows)) [])
    × (pending_rows (polls take_all 2 (7 ∷ 8 ∷ []) (rows, [])).0 ≡ drop (2 * 2) (pending_rows rows))
    × (pending (polls take_all 2 (7 ∷ 8 ∷ []) (rows, [])).0 ≡ pending rows - 2 * 2)
    × (content (polls take_all 2 (7 ∷ 8 ∷ []) (rows, [])).0 ≡ content rows)
polls_drain_example =
    polls_drain take_all 2 (7 ∷ 8 ∷ []) rows [] (λ event_type payload id log. refl)

all_given : (polls take_all 2 (7 ∷ 8 ∷ []) (rows, [])).1 ≡ "e1" ∷ "e2" ∷ "e3" ∷ []
unfolding polls poll_outbox poll_rows write_outbox_event
all_given = refl
