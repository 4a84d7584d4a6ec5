-- ===== src/Resilience/Settled.antt =====
-- What a resilient call answers, and which sample it leaves.
use cloud_mesh.Common.{
  suc, ℕ, ◌≤◌, ◌<◌, ◌≡◌, refl, sym, ap, ◌∙◌, subst, String, Bool, true, false, List, [], ◌∷◌, ◌++◌,
  arith, inl, inr, Bool-cases,
}
use cloud_mesh.Common.KeyValue.{KeyValue}
use cloud_mesh.CircuitBreaker.{
  Circuit, BreakerError, circuit_open, failed, Outcome, returned, threw, eval_attempt, settle,
  with_circuit_breaker,
}
use cloud_mesh.Retry.Attempts.{IsFinal, error_or, with_retry-Settles}
use cloud_mesh.Resilience.{
  not_circuit_open, ResilienceEnv, ResilienceError, service_unavailable, provider_failed, Sample,
  retry_options, mapped, guarded, call_provider_resilient, recorded_outcome,
  call_provider_resilient_with_stats,
}

module _ (redis : KeyValue Circuit) {E A : Type 0} (env : ResilienceEnv redis.Store) (name : String)
    (fn : ℕ → redis.Store → redis.Store × Outcome E A) (clock : ℕ → ℕ) where
  open redis use {Store}

  -- The store as attempt `k` enters the provider, or is refused.
  abbrev pub entry : ℕ → Store → Store × Bool
  entry k s = eval_attempt redis name env.circuit (clock k) s

  abbrev pub sample : ℕ → Bool → Sample
  sample latency success = record { provider = name; latency_ms = latency; success = success }

  -- The answer and the samples, by the last attempt, the `k`-th, made at the store `s`.
  abbrev pub IsSettled :
      ℕ → List Sample → ℕ → Store → (Store × List Sample) × Outcome (ResilienceError E) A → Type 0
  IsSettled latency before k s ((t, after), returned a) =
      ((entry k s).1 ≡ true)
      × ((fn k (entry k s).0).1 ≡ returned a)
      × (after ≡ before ++ sample latency true ∷ [])
  IsSettled latency before k s ((t, after), threw (service_unavailable p)) =
      ((entry k s).1 ≡ false) × (p ≡ name) × (after ≡ before)
  IsSettled latency before k s ((t, after), threw (provider_failed e)) =
      ((entry k s).1 ≡ true)
      × ((fn k (entry k s).0).1 ≡ threw e)
      × (k ≡ env.retry.max_attempts)
      × (after ≡ before ++ sample latency false ∷ [])

  used_up :
      (k : ℕ) (e : E)
      → k ≤ env.retry.max_attempts
      → IsFinal env.retry (retry_options redis env) k (failed e)
      → k ≡ env.retry.max_attempts
  used_up k e within (inl full) = omega arith
  used_up k e within (inr never) = cc

  after_call-IsSettled :
      (latency : ℕ) (before : List Sample) (k : ℕ) (s : Store) (call : Store × Outcome E A)
      → (entry k s).1 ≡ true
      → call ≡ fn k (entry k s).0
      → ((e : BreakerError E)
          → (settle redis name env.circuit (clock k) call).1 ≡ threw e
          → IsFinal env.retry (retry_options redis env) k e)
      → k ≤ env.retry.max_attempts
      → IsSettled latency before k s (
          recorded_outcome redis env name latency before
            (mapped redis env (settle redis name env.circuit (clock k) call)))
  unfolding settle
  after_call-IsSettled latency before k s (t, returned a) go same final within =
      (go, ap (λ q. q.1) (sym same), refl)
  after_call-IsSettled latency before k s (t, threw e) go same final within =
      (go, ap (λ q. q.1) (sym same), used_up k e within (final (failed e) refl), refl)

  no_entry-IsSettled :
      (latency : ℕ) (before : List Sample) (k : ℕ) (s : Store)
      → (entry k s).1 ≡ false
      → IsSettled latency before k s (
          recorded_outcome redis env name latency before
            (mapped redis env ((entry k s).0, threw (circuit_open name))))
  no_entry-IsSettled latency before k s refused = (refused, refl, refl)

  guarded-IsSettled :
      (latency : ℕ) (before : List Sample) (k : ℕ) (s : Store)
      → k ≤ env.retry.max_attempts
      → ((e : BreakerError E)
          → (guarded redis env name fn clock k s).1 ≡ threw e
          → IsFinal env.retry (retry_options redis env) k e)
      → IsSettled latency before k s (
          recorded_outcome redis env name latency before
            (mapped redis env (guarded redis env name fn clock k s)))
  unfolding with_circuit_breaker
  guarded-IsSettled latency before k s within final = elim (Bool-cases (entry k s).1) [
    | inl go ↦ rw go (
        after_call-IsSettled latency before k s (fn k (entry k s).0) go refl (rw go at final)
          within)
    | inr refused ↦ rw refused (no_entry-IsSettled latency before k s refused)
  ]

  -- How an attempt comes to be made: each one before it entered the provider and failed there, and
  -- there was a sleep after it.
  pub data Reaches (start : Store) : ℕ → Store → Type 0 where
    at_first : Reaches start 1 start
    after_failure :
        (k d : ℕ) (s : Store) (e : E)
        → Reaches start k s
        → (entry k s).1 ≡ true
        → (fn k (entry k s).0).1 ≡ threw e
        → Reaches start (suc k) (env.sleep d (guarded redis env name fn clock k s).0)

  call_threw :
      (k : ℕ) (call : Store × Outcome E A) (e : BreakerError E)
      → (settle redis name env.circuit (clock k) call).1 ≡ threw e
      → (q : E) × (call.1 ≡ threw q)
  unfolding settle
  call_threw k (t, returned a) e h = cc
  call_threw k (t, threw q) e h = (q, refl)

  entered :
      (k : ℕ) (s : Store) (e : BreakerError E)
      → (guarded redis env name fn clock k s).1 ≡ threw e
      → (retry_options redis env).should_retry e ≡ true
      → ((entry k s).1 ≡ true) × (q : E) × ((fn k (entry k s).0).1 ≡ threw q)
  unfolding with_circuit_breaker
  entered k s e h again = elim (Bool-cases (entry k s).1) [
    | inl go ↦
        let (q, threw_q) = call_threw k (fn k (entry k s).0) e (rw go at h) in (go, q, threw_q)
    | inr refused ↦
        let h' : threw (circuit_open name) ≡ threw e = rw refused at h in
        let is : circuit_open name ≡ e = ap (error_or (circuit_open name)) h' in
        let no : false ≡ true = ap (not_circuit_open redis env) is ∙ again in cc
  ]

  -- The answer comes from an attempt that is made.
  abbrev pub IsLast :
      Store → ℕ → List Sample → (Store × List Sample) × Outcome (ResilienceError E) A → Type 0
  IsLast start latency before result =
      (k : ℕ) × (s : Store) × (k ≤ env.retry.max_attempts)
      × Reaches start k s
      × IsSettled latency before k s result

  -- With at least one attempt allowed, the answer is that of a last attempt, the `k`-th, `k` at most
  -- the limit, and every attempt before it entered the provider and failed there: a refusal by the
  -- circuit is not tried again. A result is what the provider gave in the last attempt, a failure
  -- what it threw in it, and then the attempts are used up; each leaves one sample of that outcome.
  -- The service is unavailable only if the circuit refused that attempt, which leaves no sample.
  pub call_provider_resilient-IsLast :
      (undefined : BreakerError E) (latency : ℕ) (before : List Sample) (s : Store)
      → 0 < env.retry.max_attempts
      → IsLast s latency before
          (call_provider_resilient_with_stats redis env name fn clock undefined latency (s, before))
  unfolding call_provider_resilient_with_stats call_provider_resilient
  call_provider_resilient-IsLast undefined latency before s allowed =
      let (k, t, from, within, reached, same, final) =
        with_retry-Settles env.retry (retry_options redis env) (guarded redis env name fn clock)
          (Reaches s) undefined s allowed
          (λ k d w e h again p.
            let (go, q, failed_q) = entered k w e h again in after_failure k d w q p go failed_q)
          at_first in
      (
        k,
        t,
        within,
        reached,
        subst
            (λ r.
              IsSettled latency before k t
                (recorded_outcome redis env name latency before (mapped redis env r)))
            (sym same)
            (guarded-IsSettled latency before k t within (λ e h. final e (ap (λ q. q.1) same ∙ h))),
      )
