-- ===== src/Retry/Budget.antt =====
-- A chain of retries ends, and its delays keep their bounds.
use sqlery.Prelude.{ℕ, zero, suc, ◌+◌, ◌-◌, ◌≤◌, ◌≡◌, refl, Bool, true, false, none, some, arith}
use sqlery.Retry.{
  or_zero, retry_budget_left, JobSpec, retry_job_fields, RetryPolicy, shape_retry_delay, capped,
}

abbrev pub has_budget : JobSpec → Bool
has_budget job = retry_budget_left job.max_retries job.retry_count

-- The chain of a job that fails every time: the last attempt, after the retries that the budget
-- allows, and how many there were. `ids` gives the new rows' ids.
pub exhaust : (fuel : ℕ) (ids : ℕ → ℕ) → JobSpec → JobSpec × ℕ
exhaust zero ids job = (job, 0)
exhaust (suc fuel) ids job =
    let rest = exhaust fuel ids (retry_job_fields (ids fuel) job).0 in
    elim (has_budget job) [ true ↦ (rest.0, rest.1 + 1) | false ↦ (job, 0) ]

exhaust-count :
    (fuel : ℕ) (ids : ℕ → ℕ) (job : JobSpec)
    → or_zero job.max_retries - or_zero job.retry_count ≤ fuel
    → (has_budget (exhaust fuel ids job).0 ≡ false)
      × ((exhaust fuel ids job).1 ≡ or_zero job.max_retries - or_zero job.retry_count)
unfolding exhaust retry_budget_left retry_job_fields
exhaust-count zero ids job h = ground arith
exhaust-count (suc fuel) ids job h =
    ground (arith, exhaust-count fuel ids (retry_job_fields (ids fuel) job).0)

-- A job that fails every time is retried exactly as often as its budget says, and its last attempt
-- has no budget left.
pub exhaust_total :
    (ids : ℕ → ℕ) (job : JobSpec)
    → (has_budget (exhaust (or_zero job.max_retries) ids job).0 ≡ false)
      × ((exhaust (or_zero job.max_retries) ids job).1
          ≡ or_zero job.max_retries - or_zero job.retry_count)
exhaust_total ids job = exhaust-count (or_zero job.max_retries) ids job (omega arith)

-- Without a countdown the delay is at most the delay that the task's limit caps, if a random draw
-- stays within its bound; with a countdown it is the countdown.
shape_retry_delay-le :
    (uniform : ℕ → ℕ) (global_jitter : Bool) (policy : RetryPolicy) (delay : ℕ)
    → ((d : ℕ) → uniform d ≤ d)
    → (shape_retry_delay uniform global_jitter policy delay none ≤ capped policy.backoff_max delay)
      × ((seconds : ℕ)
          → shape_retry_delay uniform global_jitter policy delay (some seconds) ≡ seconds)
unfolding shape_retry_delay
shape_retry_delay-le uniform global_jitter policy delay h =
    (ground (arith, h (capped policy.backoff_max delay)), λ seconds. refl)
