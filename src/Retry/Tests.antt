-- ===== src/Retry/Tests.antt =====
-- Runs of the retry loop, and its theorems at concrete inputs.
use cloud_mesh.Common.{ℕ, ◌+◌, ◌*◌, ◌≤◌, ◌≡◌, refl, true, false, arith, ◌==◌, not}
use cloud_mesh.CircuitBreaker.{Outcome, returned, threw}
use cloud_mesh.Retry.{RetryConfig, RetryOptions, exponential, compute_backoff_delay, with_retry}
use cloud_mesh.Retry.Backoff.{compute_backoff_delay_bounds}
use cloud_mesh.Retry.Attempts.{Settles, with_retry-Settles}

abbrev config : RetryConfig
config = record { max_attempts = 3; base_delay_ms = 1000 }

-- The state counts the calls; error 0 is not to be retried.
abbrev options : RetryOptions ℕ ℕ
options = record { should_retry = λ e. not (e == 0); sleep = λ d w. w; unit = 2; random = λ k. 1 }

abbrev third_time : ℕ → ℕ → ℕ × Outcome ℕ ℕ
third_time k w = (w + 1, elim (k == 3) [ true ↦ returned 7 | false ↦ threw 5 ])

abbrev never : ℕ → ℕ → ℕ × Outcome ℕ ℕ
never k w = (w + 1, threw 0)

third_time_lucky : with_retry config options third_time 9 0 ≡ (3, returned 7)
unfolding with_retry
third_time_lucky = refl

never_again : with_retry config options never 9 0 ≡ (1, threw 0)
unfolding with_retry
never_again = refl

compute_backoff_delay_bounds_example :
    (2 * 2 * exponential 3 config ≤ compute_backoff_delay 3 config 2 1)
    × (compute_backoff_delay 3 config 2 1 ≤ 3 * 2 * exponential 3 config)
compute_backoff_delay_bounds_example = compute_backoff_delay_bounds 3 config 2 1 (omega arith)

-- The `k`-th call finds `k - 1` calls made.
abbrev Counted : ℕ → ℕ → Type 0
Counted k w = w + 1 ≡ k

with_retry-Settles_example :
    Settles config options third_time Counted 1 (with_retry config options third_time 9 0)
with_retry-Settles_example =
    with_retry-Settles config options third_time Counted 9 0 (omega arith)
      (λ k d w e q again p. omega (arith, p)) refl
