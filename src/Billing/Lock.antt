-- ===== src/Billing/Lock.antt =====
-- The billing lock: what one caller does to it, and what callers do together.
use Prim.Native.String.{◌++◌ as ◌+++◌}
use cloud_mesh.Common.{
  ℕ, zero, suc, ◌≡◌, ◌≢◌, refl, ap, String, Bool, true, false, Option, none, some, List, [], ◌∷◌,
  arith, str_eq, eq_iff, eq_refl, filter, not, Bool-cases, ◌⊎◌, inl, inr,
}
use cloud_mesh.Common.KeyValue.{KeyValue}
use cloud_mesh.CircuitBreaker.{Outcome, returned, threw}
use cloud_mesh.Billing.{
  LockError, not_acquired, inner, set_nx, release, release_held, set_over, after_body, lock_round,
  lock_loop, with_distributed_lock, give_up,
}

module _ (redis : KeyValue String) where
  open redis use {Store, get, put, del, get-put, get-del}

  release_held_own :
      (key token : String) (row : Option String) (s : Store)
      → get s key ≡ row
      → get (release_held redis key token row s) key ≢ some token
  release_held_own key token none s seen h = cc
  release_held_own key token (some held) s seen h = elim (Bool-cases (str_eq held token)) [
    | inl same ↦
        let gone : get (del s key) key ≡ none = rw (get-del s key key, eq_refl key) refl in
        let still : get (del s key) key ≡ some token = rw same at h in cc
    | inr differs ↦
        let still : get s key ≡ some token = rw differs at h in
        let same : held ≡ token = ground (arith, seen, still) in
        let differs' = (eq_iff held token).1 same in cc
  ]

  -- A release leaves a lock alone that is held with another token.
  release_other :
      (key token held : String) (s : Store)
      → get s key ≡ some held
      → held ≢ token
      → release redis key token s ≡ s
  unfolding release
  release_other key token held s there ne = rw there (ground (arith, eq_iff held token, ne))

  abbrev pub outcome_of : {E A : Type 0} → Outcome E A → Outcome (LockError E) A
  outcome_of (returned a) = returned a
  outcome_of (threw e) = threw (inner e)

  module _ {V E A : Type 0} where
    -- The store after `after_body` is the body's, released.
    after_body_store :
        (key token : String) (done : (Store × V) × Outcome E A)
        → after_body redis key token done
          ≡ ((release redis key token done.0.0, done.0.1), outcome_of done.1)
    after_body_store key token (w, returned a) = refl
    after_body_store key token (w, threw e) = refl

    -- What a round of the loop comes to: the body ran under the lock, on a store in which the lock
    -- was free, or the lock was held and the call has thrown.
    abbrev pub Ends :
        String
        → String
        → (Store × V → (Store × V) × Outcome E A)
        → (Store × V) × Outcome (LockError E) A
        → Type 0
    Ends key token fn result =
        ((w : Store × V) × (get w.0 key ≡ none)
          × (result ≡ after_body redis key token (fn (put w.0 key token, w.1))))
        ⊎ ((held : String) × (get result.0.0 key ≡ some held)
            × (result.1 ≡ threw (not_acquired key)))

    lock_round-Ends :
        (key token : String) (fn : Store × V → (Store × V) × Outcome E A)
        (otherwise : Store × V → (Store × V) × Outcome (LockError E) A) (row : Option String)
        (w : Store × V)
        → get w.0 key ≡ row
        → ((held : String) → get w.0 key ≡ some held → Ends key token fn (otherwise w))
        → Ends key token fn
            (lock_round redis key token fn otherwise (set_over redis key token row w.0) w.1)
    lock_round-Ends key token fn otherwise none w seen rest = inl (w, seen, refl)
    lock_round-Ends key token fn otherwise (some held) w seen rest = rest held seen

    lock_loop-Ends :
        (key token : String) (fn : Store × V → (Store × V) × Outcome E A)
        (sleep : Store × V → Store × V) (left : ℕ) (w : Store × V)
        → Ends key token fn (lock_loop redis key token fn sleep left w)
    unfolding lock_loop set_nx
    lock_loop-Ends key token fn sleep zero w =
        lock_round-Ends key token fn (give_up redis key) (get w.0 key) w refl
          (λ held seen. inr (held, seen, refl))
    lock_loop-Ends key token fn sleep (suc left) w =
        lock_round-Ends key token fn (λ w'. lock_loop redis key token fn sleep left (sleep w'))
          (get w.0 key) w refl (λ held seen. lock_loop-Ends key token fn sleep left (sleep w))

    -- The body ran on a store in which the lock was free and that the call had marked with its
    -- token. Its outcome is passed on, the lock is no longer held with that token, and where another
    -- caller holds it by then the store stays the body's.
    abbrev pub Ran :
        String
        → String
        → (Store × V → (Store × V) × Outcome E A)
        → (Store × V) × Outcome (LockError E) A
        → Type 0
    Ran key token fn result =
        (w : Store × V) × let done = fn (put w.0 key token, w.1) in
          (get w.0 key ≡ none)
          × (result.0.1 ≡ done.0.1)
          × (result.1 ≡ outcome_of done.1)
          × (get result.0.0 key ≢ some token)
          × ((held : String) → get done.0.0 key ≡ some held → held ≢ token → result.0.0 ≡ done.0.0)

    abbrev pub Refused : String → (Store × V) × Outcome (LockError E) A → Type 0
    Refused key result =
        (held : String) × (get result.0.0 key ≡ some held) × (result.1 ≡ threw (not_acquired key))

    after_body-Ran :
        (key token : String) (fn : Store × V → (Store × V) × Outcome E A) (w : Store × V)
        → get w.0 key ≡ none
        → Ran key token fn (after_body redis key token (fn (put w.0 key token, w.1)))
    unfolding release
    after_body-Ran key token fn w free =
        let done = fn (put w.0 key token, w.1) in
        rw (after_body_store key token done) (
          w,
          (
            free,
            refl,
            refl,
            release_held_own key token (get done.0.0 key) done.0.0 refl,
            λ held there ne. release_other key token held done.0.0 there ne,
          ),
        )

    -- Whatever the body, the sleep and other callers do meanwhile, a call under the lock ends in one
    -- of two ways. Either its body ran on a store in which the lock was free and that the call had
    -- marked with its token, and then the body's outcome is passed on, the lock is not held with
    -- that token any more, and a lock that another caller holds by then is left alone. Or the lock
    -- is held, and the call throws.
    pub with_distributed_lock_contract :
        (name token : String) (retries : ℕ) (fn : Store × V → (Store × V) × Outcome E A)
        (sleep : Store × V → Store × V) (w : Store × V)
        → Ran
            ("billing:lock:" +++ name)
            token
            fn
            (with_distributed_lock redis name token retries fn sleep w)
          ⊎ Refused
              ("billing:lock:" +++ name)
              (with_distributed_lock redis name token retries fn sleep w)
    unfolding with_distributed_lock
    with_distributed_lock_contract name token retries fn sleep w =
        let key = "billing:lock:" +++ name in
        elim (lock_loop-Ends key token fn sleep retries w) [
          | inl (w0, free, same) ↦ inl (rw same (after_body-Ran key token fn w0 free))
          | inr refused ↦ inr refused
        ]

  -- Callers that take the lock and give it back, in any order. The holders are the tokens of the
  -- callers whose body runs.
  pub data LockEvent : Type 0 where
    tries leaves : String → LockEvent

  abbrev pub enter : String → Store × Bool → List String → Store × List String
  enter token (s, true) holders = (s, token ∷ holders)
  enter token (s, false) holders = (s, holders)

  unfoldable pub lock_step : String → LockEvent → Store × List String → Store × List String
  lock_step key (tries token) (s, holders) = enter token (set_nx redis key token s) holders
  lock_step key (leaves token) (s, holders) =
      (release redis key token s, filter (λ held. not (str_eq held token)) holders)

  unfoldable pub lock_run : String → List LockEvent → Store × List String → Store × List String
  lock_run key [] w = w
  lock_run key (e ∷ es) w = lock_run key es (lock_step key e w)

  -- The lock is free and nobody's body runs, or it names the one caller whose body runs.
  abbrev pub Excludes : String → Store × List String → Type 0
  Excludes key (s, holders) =
      ((get s key ≡ none) × (holders ≡ []))
      ⊎ ((token : String) × (get s key ≡ some token) × (holders ≡ token ∷ []))

  enter-Excludes :
      (key token : String) (row : Option String) (s : Store) (holders : List String)
      → get s key ≡ row
      → Excludes key (s, holders)
      → Excludes key (enter token (set_over redis key token row s) holders)
  enter-Excludes key token none s holders seen (inl (free, nobody)) = inr (
    token,
    rw (get-put s key key token, eq_refl key) refl,
    ap (λ (hs : List String). token ∷ hs) nobody,
  )
  enter-Excludes key token none s holders seen (inr (t, there, one)) = cc
  enter-Excludes key token (some held) s holders seen v = v

  leave-Excludes :
      (key token : String) (row : Option String) (s : Store) (holders : List String)
      → get s key ≡ row
      → Excludes key (s, holders)
      → Excludes key
          (release_held redis key token row s, filter (λ held. not (str_eq held token)) holders)
  leave-Excludes key token none s holders seen (inl (free, nobody)) = rw nobody (inl (free, refl))
  leave-Excludes key token none s holders seen (inr (t, there, one)) = cc
  leave-Excludes key token (some held) s holders seen (inl (free, nobody)) = cc
  leave-Excludes key token (some held) s holders seen (inr (t, there, one)) =
      let same : held ≡ t = ground (arith, seen, there) in
      rw (one, ← same)
        (elim (Bool-cases (str_eq held token)) [
          | inl own ↦ rw (own, filter) (inl (rw (get-del s key key, eq_refl key) refl, refl))
          | inr other ↦ rw (other, filter) (inr (held, seen, refl))
        ])

  lock_step-Excludes :
      (key : String) (e : LockEvent) (w : Store × List String)
      → Excludes key w
      → Excludes key (lock_step key e w)
  unfolding lock_step set_nx release
  lock_step-Excludes key (tries token) (s, holders) v =
      enter-Excludes key token (get s key) s holders refl v
  lock_step-Excludes key (leaves token) (s, holders) v =
      leave-Excludes key token (get s key) s holders refl v

  -- While no lock expires, callers that take and release the lock in any order exclude each other:
  -- after every sequence of their steps that starts with the lock free, at most one body runs, and
  -- then the lock names its caller.
  pub lock_run-Excludes :
      (key : String) (es : List LockEvent) (w : Store × List String)
      → Excludes key w
      → Excludes key (lock_run key es w)
  unfolding lock_run
  lock_run-Excludes key [] w v = v
  lock_run-Excludes key (e ∷ es) w v =
      lock_run-Excludes key es (lock_step key e w) (lock_step-Excludes key e w v)
