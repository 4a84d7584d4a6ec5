-- ===== src/Retry/Attempts.antt =====
-- How often `withRetry` calls, and whose outcome it gives.
use cloud_mesh.Common.{
  ℕ, zero, suc, ◌+◌, ◌≤◌, ◌<◌, ◌≡◌, refl, ap, ◌∙◌, subst, ◌⊎◌, inl, inr, true, false, not, ◌||◌,
  leb, arith, Bool-cases,
}
use cloud_mesh.CircuitBreaker.{Outcome, returned, threw}
use cloud_mesh.Retry.{RetryConfig, RetryOptions, retry_loop, after_attempt, with_retry}

-- A failure after which no further attempt is made.
abbrev pub IsFinal : {W E : Type 0} → RetryConfig → RetryOptions W E → ℕ → E → Type 0
IsFinal config options attempt e =
    (config.max_attempts ≤ attempt) ⊎ (options.should_retry e ≡ false)

abbrev pub error_or : {E A : Type 0} → E → Outcome E A → E
error_or d (returned a) = d
error_or d (threw e) = e

module _ {W E A : Type 0} (config : RetryConfig) (options : RetryOptions W E)
    (fn : ℕ → W → W × Outcome E A) (P : ℕ → W → Type 0) where
  -- The result is that of the call of some attempt `k`, made in a state that `P k` holds of, and
  -- if it is a failure, no further attempt is made after it.
  abbrev pub Settles : ℕ → W × Outcome E A → Type 0
  Settles from result =
      (k : ℕ) × (w : W) × (from ≤ k)
      × (k ≤ config.max_attempts)
      × P k w
      × (result ≡ fn k w)
      × ((e : E) → result.1 ≡ threw e → IsFinal config options k e)

  -- What a failed attempt and the sleep after it keep.
  abbrev pub Keeps : Type 0
  Keeps =
      (k d : ℕ) (w : W) (e : E)
      → (fn k w).1 ≡ threw e
      → options.should_retry e ≡ true
      → P k w
      → P (suc k) (options.sleep d (fn k w).0)

  Settles-earlier :
      (from : ℕ) (result : W × Outcome E A) → Settles (suc from) result → Settles from result
  Settles-earlier from result (k, w, after, within, p, same, last) =
      (k, w, omega arith, within, p, same, last)

  again_within :
      (e : E) (attempt : ℕ)
      → (leb config.max_attempts attempt || not (options.should_retry e)) ≡ false
      → attempt < config.max_attempts
  again_within e attempt h = ground arith

  again_retried :
      (e : E) (attempt : ℕ)
      → (leb config.max_attempts attempt || not (options.should_retry e)) ≡ false
      → options.should_retry e ≡ true
  again_retried e attempt h = ground arith

  IsFinal-of :
      (e : E) (attempt : ℕ)
      → (leb config.max_attempts attempt || not (options.should_retry e)) ≡ true
      → IsFinal config options attempt e
  IsFinal-of e attempt h = ground arith

  after_attempt-Settles :
      (attempt : ℕ) (w : W) (again : E → W → W × Outcome E A) (r : W × Outcome E A)
      → r ≡ fn attempt w
      → attempt ≤ config.max_attempts
      → P attempt w
      → ((e : E) (d : ℕ)
          → r.1 ≡ threw e
          → attempt < config.max_attempts
          → options.should_retry e ≡ true
          → Settles (suc attempt) (again e (options.sleep d r.0)))
      → Settles attempt (after_attempt config options attempt again r)
  unfolding after_attempt
  after_attempt-Settles attempt w again (w', returned a) same within p rest =
      (attempt, w, omega arith, within, p, same, λ e q. cc)
  after_attempt-Settles attempt w again (w', threw e) same within p rest =
      elim (Bool-cases (leb config.max_attempts attempt || not (options.should_retry e))) [
        | inl stop ↦ rw stop (
          attempt,
          w,
          omega arith,
          within,
          p,
          same,
          λ e' q.
              subst (IsFinal config options attempt) (ap (error_or e) q)
                (IsFinal-of e attempt stop),
        )
        | inr go ↦ rw go (
            Settles-earlier attempt _
              (rest e _ refl (again_within e attempt go) (again_retried e attempt go)))
      ]

  retry_loop-Settles :
      (left attempt : ℕ) (last_error : E) (w : W)
      → attempt + left ≡ config.max_attempts
      → Keeps
      → P attempt w
      → Settles attempt (retry_loop config options fn (suc left) attempt last_error w)
  unfolding retry_loop
  retry_loop-Settles zero attempt last_error w h keeps p =
      after_attempt-Settles attempt w (retry_loop config options fn zero (attempt + 1))
        (fn attempt w) refl (omega arith) p (λ e d q lt again. absurd (omega arith))
  retry_loop-Settles (suc left) attempt last_error w h keeps p =
      let next : attempt + 1 ≡ suc attempt = omega arith in
      after_attempt-Settles attempt w (retry_loop config options fn (suc left) (attempt + 1))
        (fn attempt w) refl (omega arith) p
        λ e d q lt again. rw next (
          retry_loop-Settles left (suc attempt) e (options.sleep d (fn attempt w).0) (omega arith)
            keeps (keeps attempt d w e q again p))

  with_retry_from :
      (max : ℕ) (undefined : E) (w : W)
      → config.max_attempts ≡ max
      → 0 < max
      → Keeps
      → P 1 w
      → Settles 1 (retry_loop config options fn max 1 undefined w)
  with_retry_from zero undefined w same h keeps p = absurd (omega arith)
  with_retry_from (suc left) undefined w same h keeps p =
      retry_loop-Settles left 1 undefined w (omega arith) keeps p

  -- With at least one attempt allowed, `withRetry` gives the result of one of its calls, the
  -- `k`-th with `k` between 1 and the limit, in a state of which `P k` holds, for any `P` that an
  -- attempt with an error to be retried and the sleep after it carry from `k` to `k + 1`. If that
  -- call failed, then the attempts are used up or the error is not to be retried.
  pub with_retry-Settles :
      (undefined : E) (w : W)
      → 0 < config.max_attempts
      → Keeps
      → P 1 w
      → Settles 1 (with_retry config options fn undefined w)
  unfolding with_retry
  with_retry-Settles undefined w h keeps p =
      with_retry_from config.max_attempts undefined w refl h keeps p

module _ {W E A : Type 0} (config : RetryConfig) (options : RetryOptions W E)
    (fn : ℕ → W → W × Outcome E A) (calls : W → ℕ) where
  not_used_up :
      {k : ℕ} {e : E}
      → k < config.max_attempts
      → IsFinal config options k e
      → options.should_retry e ≡ false
  not_used_up lt (inl full) = absurd (omega arith)
  not_used_up lt (inr final) = final

  -- Where each call counts itself, and sleeping counts none, `withRetry` makes at least one call
  -- and at most `maxAttempts`; a success or an error that is not to be retried ends it at once,
  -- so fewer calls than the limit mean one of these.
  pub with_retry_calls :
      (undefined : E) (w : W)
      → 0 < config.max_attempts
      → ((k : ℕ) (v : W) → calls (fn k v).0 ≡ calls v + 1)
      → ((d : ℕ) (v : W) → calls (options.sleep d v) ≡ calls v)
      → let result = with_retry config options fn undefined w in
        (calls w < calls result.0)
        × (calls result.0 ≤ calls w + config.max_attempts)
        × (calls result.0 < calls w + config.max_attempts
            → (e : E) → result.1 ≡ threw e
            → options.should_retry e ≡ false)
  with_retry_calls undefined w h counts rests =
      let (k, v, after, within, p, same, last) =
        with_retry-Settles config options fn (λ j u. calls u + 1 ≡ calls w + j) undefined w h
          (λ j d u e q again before. omega (arith, counts j u, rests d (fn j u).0, before))
          (omega arith) in
      let spent : calls (with_retry config options fn undefined w).0 ≡ calls w + k =
        ap (λ (r : W × Outcome E A). calls r.0) same ∙ counts k v ∙ p in
      (
        omega (arith, spent),
        omega (arith, spent),
        λ fewer e q. not_used_up (omega (arith, spent)) (last e q),
      )
