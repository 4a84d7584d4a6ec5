-- ===== src/CircuitBreaker/Call.antt =====
-- What `withCircuitBreaker` promises the code that it wraps.
use cloud_mesh.Common.{
  ℕ, ◌+◌, ◌≤◌, ◌≡◌, refl, ◌∙◌, String, Bool, true, false, arith, str_eq, eq_refl, Bool-cases, inl,
  inr,
}
use cloud_mesh.Common.KeyValue.{KeyValue}
use cloud_mesh.CircuitBreaker.{
  closed, opened, Circuit, CircuitBreakerConfig, Outcome, returned, threw, BreakerError,
  circuit_open, failed, state_of, failures_of, attempt, report, key, fetch, eval_attempt,
  eval_report, with_circuit_breaker, settle,
}
use cloud_mesh.CircuitBreaker.Probe.{refusal_keeps}

-- The caller's view of what the wrapped call did.
abbrev pub passed_on : {E A : Type 0} → Outcome E A → Outcome (BreakerError E) A
passed_on (returned a) = returned a
passed_on (threw e) = threw (failed e)

abbrev pub succeeded : {E A : Type 0} → Outcome E A → Bool
succeeded (returned a) = true
succeeded (threw e) = false

module _ (redis : KeyValue Circuit) where
  open redis use {Store, get, put, get-put}

  fetch-put :
      (s : Store) (name : String) (c : Circuit) → fetch redis (put s (key redis name) c) name ≡ c
  fetch-put s name c = rw (get-put s (key redis name) (key redis name) c, eq_refl (key redis name))

  settle_lem :
      {E A : Type 0} (name : String) (cfg : CircuitBreakerConfig) (now : ℕ) (t : Store)
      (o : Outcome E A)
      → ((settle redis name cfg now (t, o)).1 ≡ passed_on o)
        × (fetch redis (settle redis name cfg now (t, o)).0 name
            ≡ (report cfg now (succeeded o) (fetch redis t name)).0)
  unfolding settle eval_report
  settle_lem name cfg now t (returned a) = (refl, fetch-put t name _)
  settle_lem name cfg now t (threw e) = (refl, fetch-put t name _)

  -- What the call finds: the store with the circuit as the attempt left it.
  abbrev pub entered : String → CircuitBreakerConfig → ℕ → Store → Store
  entered name cfg now s = put s (key redis name) (attempt cfg now (fetch redis s name)).0

  -- Where the attempt is refused, the wrapper throws CircuitOpenError whatever the call would do,
  -- and the circuit is as it was. Where it is admitted, the caller gets the call's own outcome,
  -- and the circuit that the call left takes one report, of that outcome.
  pub with_circuit_breaker_contract :
      {E A : Type 0} (name : String) (cfg : CircuitBreakerConfig) (fn : Store → Store × Outcome E A)
      (now : ℕ) (s : Store)
      → let c = fetch redis s name in
        let after = with_circuit_breaker redis name cfg fn now s in
        let call = fn (entered name cfg now s) in
        ((attempt cfg now c).1 ≡ false
          → (after.1 ≡ threw (circuit_open name)) × (fetch redis after.0 name ≡ c))
        × ((attempt cfg now c).1 ≡ true
            → (after.1 ≡ passed_on call.1)
              × (fetch redis after.0 name
                  ≡ (report cfg now (succeeded call.1) (fetch redis call.0 name)).0))
  unfolding with_circuit_breaker eval_attempt
  with_circuit_breaker_contract name cfg fn now s = (
    λ no_entry.
        rw no_entry
          (refl, fetch-put s name _ ∙ refusal_keeps cfg now (fetch redis s name) no_entry),
    λ go. let call = fn (entered name cfg now s) in rw go (settle_lem name cfg now call.0 call.1),
  )

  settle_elsewhere :
      {E A : Type 0} (name other : String) (cfg : CircuitBreakerConfig) (now : ℕ) (t : Store)
      (o : Outcome E A)
      → str_eq (key redis name) other ≡ false
      → get (settle redis name cfg now (t, o)).0 other ≡ get t other
  unfolding settle eval_report
  settle_elsewhere name other cfg now t (returned a) h =
      rw (get-put t (key redis name) other (report cfg now true (fetch redis t name)).0, h)
  settle_elsewhere name other cfg now t (threw e) h =
      rw (get-put t (key redis name) other (report cfg now false (fetch redis t name)).0, h)

  -- A wrapped call leaves the value under every key but its own circuit's as the call itself
  -- leaves it: if the call keeps it, so does the wrapper, admitted or refused.
  pub with_circuit_breaker_elsewhere :
      {E A : Type 0} (name other : String) (cfg : CircuitBreakerConfig)
      (fn : Store → Store × Outcome E A) (now : ℕ) (s : Store)
      → str_eq (key redis name) other ≡ false
      → ((t : Store) → get (fn t).0 other ≡ get t other)
      → get (with_circuit_breaker redis name cfg fn now s).0 other ≡ get s other
  unfolding with_circuit_breaker eval_attempt
  with_circuit_breaker_elsewhere name other cfg fn now s h keeps =
      let kept : get (entered name cfg now s) other ≡ get s other =
        rw (get-put s (key redis name) other (attempt cfg now (fetch redis s name)).0, h) in
      elim (Bool-cases (attempt cfg now (fetch redis s name)).1) [
        | inl go ↦
            let call = fn (entered name cfg now s) in
            rw go (
              settle_elsewhere name other cfg now call.0 call.1 h
              ∙ keeps (entered name cfg now s)
              ∙ kept)
        | inr no_entry ↦ rw no_entry kept
      ]

  -- The time at which a failed call opens a closed circuit is the time at which the call began:
  -- where the failure that reaches the threshold comes from a call that itself lasted for the
  -- whole open duration, the next caller is let through at once.
  pub slow_failure_admits :
      {E A : Type 0} (name : String) (cfg : CircuitBreakerConfig) (fn : Store → Store × Outcome E A)
      (e : E) (now later : ℕ) (s : Store)
      → (attempt cfg now (fetch redis s name)).1 ≡ true
      → (fn (entered name cfg now s)).1 ≡ threw e
      → state_of (fetch redis (fn (entered name cfg now s)).0 name) ≡ closed
      → cfg.failure_threshold ≤ failures_of (fetch redis (fn (entered name cfg now s)).0 name) + 1
      → now + cfg.open_duration_ms ≤ later
      → let after = fetch redis (with_circuit_breaker redis name cfg fn now s).0 name in
        (state_of after ≡ opened) × ((attempt cfg later after).1 ≡ true)
  unfolding attempt report
  slow_failure_admits name cfg fn e now later s go fails was at_limit late =
      let call = fn (entered name cfg now s) in
      let after = ((with_circuit_breaker_contract name cfg fn now s).1 go).1 in
      rw (after, fails) (ground arith)
