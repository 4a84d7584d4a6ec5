-- ===== src/Events/JetStream.antt =====
-- NATS JetStream, as its documentation has it: a message that it acknowledges is one that it has taken
-- in, or one with the id of a message that it has taken in before; and it takes in nothing else than
-- what is published. `taken` is what it ever took in, also what is older than the stream's `max_age`
-- by now, which it holds no more.
use cloud_mesh.Common.{
  ◌≡◌, refl, sym, String, Bool, true, List, [], ◌∷◌, IsIn, ◌⊎◌, inl, inr, any, str_eq, eq_iff,
  Bool-cases, if◌then◌else◌,
}
use cloud_mesh.Events.Bus.{Published}

-- A message with this id was taken in.
abbrev pub IsTaken : String → List Published → Type 0
IsTaken id ms = (q : Published) × IsIn q ms × (q.msg_id ≡ id)

pub record Nats : Type 1 where
  pub World : Type 0
  pub publish : Published → World → World × Bool
  pub taken : World → List Published
  pub publish-acked :
      (p : Published) (w : World)
      → (publish p w).1 ≡ true
      → IsTaken p.msg_id (taken (publish p w).0)
  pub publish-keeps :
      (p q : Published) (w : World) → IsIn q (taken w) → IsIn q (taken (publish p w).0)
  pub publish-only :
      (p q : Published) (w : World) → IsIn q (taken (publish p w).0) → (q ≡ p) ⊎ IsIn q (taken w)

-- One that drops a message whose id it knows, and acknowledges it; of the messages that are new the
-- acknowledgements arrive, or are lost.
abbrev pub known : Published → List Published → Bool
known p ms = any (λ q. str_eq q.msg_id p.msg_id) ms

abbrev pub take_in : Bool → Published → List Published → List Published × Bool
take_in arrive p ms = if known p ms then (ms, true) else (p ∷ ms, arrive)

known-IsTaken : (p : Published) (ms : List Published) → known p ms ≡ true → IsTaken p.msg_id ms
known-IsTaken p [] h = cc
known-IsTaken p (q ∷ ms) h = elim (Bool-cases (str_eq q.msg_id p.msg_id)) [
  | inl same ↦ (q, inl refl, (eq_iff q.msg_id p.msg_id).0 same)
  | inr other ↦
      let h' : known p ms ≡ true = rw (any, other) at h in
      let (r, there, same) = known-IsTaken p ms h' in (r, inr there, same)
]

pub take_in-acked :
    (arrive : Bool) (p : Published) (ms : List Published) → IsTaken p.msg_id (take_in arrive p ms).0
take_in-acked arrive p ms = elim (Bool-cases (known p ms)) [
  | inl old ↦ rw old (known-IsTaken p ms old)
  | inr new ↦ rw new (p, inl refl, refl)
]

pub take_in-keeps :
    (arrive : Bool) (p q : Published) (ms : List Published)
    → IsIn q ms
    → IsIn q (take_in arrive p ms).0
take_in-keeps arrive p q ms h = elim (Bool-cases (known p ms)) [
  | inl old ↦ rw old h
  | inr new ↦ rw new (inr h)
]

taken_either : (p q : Published) (ms : List Published) → IsIn q (p ∷ ms) → (q ≡ p) ⊎ IsIn q ms
taken_either p q ms (inl same) = inl (sym same)
taken_either p q ms (inr h) = inr h

pub take_in-only :
    (arrive : Bool) (p q : Published) (ms : List Published)
    → IsIn q (take_in arrive p ms).0
    → (q ≡ p) ⊎ IsIn q ms
take_in-only arrive p q ms h = elim (Bool-cases (known p ms)) [
  | inl old ↦ inr (rw old at h)
  | inr new ↦ taken_either p q ms (rw new at h)
]

abbrev pub deduped : Bool → Nats
deduped arrive = record {
  World = List Published;
  publish = take_in arrive;
  taken = λ ms. ms;
  publish-acked = λ p ms acked. take_in-acked arrive p ms;
  publish-keeps = take_in-keeps arrive;
  publish-only = take_in-only arrive;
}
