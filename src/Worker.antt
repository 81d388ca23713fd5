-- ===== src/Worker.antt =====
-- JobExecutor of src/sqlery/core/worker.py: a claimed job is run in a worker child, its outcome is
-- recorded, a failure is retried, and an outcome that the child could not record is persisted by its
-- parent. The tables are those of Backend.
--
-- The task's own code is a parameter (what it ends with), and so is the connection: each write of an
-- outcome may be lost before or after the database has committed it. Callbacks are code of the tasks.
pub mod Child
pub mod HandOver
pub mod Once
pub mod Retries
pub mod Stale
pub mod Sweep
mod Tests
use sqlery.Prelude.{
  ℕ, ◌+◌, ◌-◌, ◌*◌, ◌^◌, min, Bool, true, false, not, ◌&&◌, ◌||◌, Option, none, some, List, [], ◌∷◌,
  Text, ltb, leb, ◌==◌, if◌then◌else◌, length, get_elem?, is_empty,
}
use sqlery.Attempts.{AttemptHandle, Outcome}
use sqlery.Backend.{Run, Job, Db, find_live}
use sqlery.Backend.Ancestors.{cascade_ancestor_status, find_job}
use sqlery.Backend.Complete
use sqlery.Backend.Complete.{
  Completion, rejected, gone, broken, recorded, fenced_update, mark_job_archived,
}
use sqlery.Backend.Finish.{Values}
use sqlery.Backend.Recovery.{settle_retry_pending}
use sqlery.Backend.Release.{create_job, all_jobs, newest_child}
use sqlery.Ready.{Status}
use sqlery.Retry
use sqlery.Retry.{
  JobSpec, Failure, RetryPolicy, or_zero, interval_at, shape_retry_delay, policy_allows_retry,
  retry_countdown, pending_reason, capped, backoff_or_default,
}

-- RETRY_BACKOFF_MAX and RETRY_JITTER, the policy of the task where it can be loaded, and the draw of
-- `random.uniform(0, d)`.
pub record Settings : Type 0 where
  pub backoff_max : Option ℕ
  pub jitter : Bool
  pub policy : Option RetryPolicy
  pub uniform : ℕ → ℕ

-- `compute_retry_delay`
unfoldable pub compute_retry_delay : Settings → (backoff retry_count : ℕ) → List ℕ → ℕ
compute_retry_delay set backoff retry_count [] =
    let delay = capped set.backoff_max (backoff * 2 ^ retry_count) in
    if set.jitter then set.uniform delay else delay
compute_retry_delay set backoff retry_count (d ∷ intervals) =
    interval_at (d ∷ intervals) (min retry_count (length intervals))

-- `_should_retry`
unfoldable pub should_retry : Settings → JobSpec → Option Failure → Bool
should_retry set spec exc =
    ltb 0 (or_zero spec.max_retries)
    && not (elim spec.retry_count [ none ↦ false | some n ↦ leb (or_zero spec.max_retries) n ])
    && policy_allows_retry set.policy exc

-- `mark_job_success` and `mark_job_failed`: a job that is in history already rejects a fenced
-- completion.
abbrev pub already_finished : Option ℕ → Option AttemptHandle → Completion
already_finished none none = gone
already_finished _ _ = rejected

abbrev pub mark_found :
    (j : ℕ) (version : Option ℕ) (status : Status) (values : Values)
    (attempt : Option AttemptHandle) (outcome : Outcome) (now : ℕ) (db : Db)
    → (live finished : Option Job) → Completion
mark_found j version status values attempt outcome now db (some job) finished =
    fenced_update j version status values attempt outcome now db
mark_found j version status values attempt outcome now db none (some job) =
    already_finished version attempt
mark_found j version status values attempt outcome now db none none = gone

unfoldable pub mark_job_success :
    (j : ℕ) (version : Option ℕ) (attempt : Option AttemptHandle) (now : ℕ) → Db → Completion
mark_job_success j version attempt now db =
    mark_found j version Status.success
      (record { termination_reason = none; finished_at = some now }) attempt Outcome.success now db
      (find_live j db) (find_job j db.history)

unfoldable pub mark_job_failed :
    (j : ℕ) (version : Option ℕ) (reason : Text) (attempt : Option AttemptHandle) (now : ℕ)
    → Db
    → Completion
mark_job_failed j version reason attempt now db =
    mark_found j version Status.failed
      (record { termination_reason = some reason; finished_at = some now }) attempt Outcome.failed
      now db (find_live j db) (find_job j db.history)

-- `_mark_failed`
unfoldable pub mark_failed :
    (j : ℕ) (version : Option ℕ) (will_retry : Bool) (attempt : Option AttemptHandle) (now : ℕ)
    → Db
    → Completion
mark_failed j version will_retry attempt now db =
    mark_job_failed j version (if will_retry then pending_reason [] else []) attempt now db
