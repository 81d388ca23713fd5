-- ===== src/Worker/HandOver.antt =====
-- An outcome that a worker child hands over to its parent, beside one that it records itself.
use sqlery.Prelude.{
  sym, ℕ, Bool, true, false, Option, none, some, ◌≡◌, ◌≢◌, refl, ap, inl, inr, Option-cases,
}
use sqlery.Attempts.{AttemptHandle, Outcome}
use sqlery.Backend.{Job, Db, find_live}
use sqlery.Backend.Ancestors.{find_job}
use sqlery.Backend.Complete.{Completion, rejected, gone, broken, recorded}
use sqlery.Backend.OneAttempt.{IsValid}
use sqlery.Backend.Release.{all_jobs, newest_child}
use sqlery.Backend.Whole.{fenced_update-ne-broken}
use sqlery.Ready.{Status}
use sqlery.Retry.{JobSpec, Failure, retry_countdown}
use sqlery.Worker.{newest_child, Settings, should_retry, mark_found, mark_job_success, mark_failed}
use sqlery.Worker.Child.{
  Given, delay_of, retry_by, found, retry_job, retry_found, retry_if, TaskResult, returned, raised,
  Connection, up, lost_before, tables, failure_of, handed_over, after_failure, after_success,
  run_job_in_child, persist_success, persist_failure, persist_outcome,
}

-- The delay does not depend on who computes the countdown of the exception.
delay_of-countdown :
    (set : Settings) (spec : JobSpec) (exc : Failure)
    → delay_of set spec (some exc) none ≡ delay_of set spec none (retry_countdown (some exc))
unfolding delay_of retry_countdown
delay_of-countdown set spec exc = elim (Option-cases (retry_countdown (some exc))) [
  | inl e ↦ rw e refl
  | inr (seconds, e) ↦ rw e refl
]

retry_job-countdown :
    (set : Settings) (g : Given) (spec : JobSpec) (exc : Failure) (failed : Job) (db : Db)
    → retry_job set g spec none (retry_countdown (some exc)) failed db
      ≡ retry_job set g spec (some exc) none failed db
unfolding retry_job
retry_job-countdown set g spec exc failed db =
    ap (λ d. retry_by g d failed db (newest_child none failed.id (all_jobs db)))
      (sym (delay_of-countdown set spec exc))

retry_if-countdown :
    (will_retry : Bool) (set : Settings) (g : Given) (j : ℕ) (spec : JobSpec) (exc : Failure)
    (db : Db)
    → retry_if will_retry set g j spec none (retry_countdown (some exc)) db
      ≡ retry_if will_retry set g j spec (some exc) none db
retry_if-countdown false set g j spec exc db = refl
retry_if-countdown true set g j spec exc db =
    found_same (found (find_live j db) (find_job j db.history))
  where
    found_same :
        (row : Option Job)
        → retry_found set g spec none (retry_countdown (some exc)) db row
          ≡ retry_found set g spec (some exc) none db row
    found_same none = refl
    found_same (some failed) = retry_job-countdown set g spec exc failed db

module _ (set : Settings) (g : Given) (spec : JobSpec) (job : Job)
    (attempt : Option AttemptHandle) where
  persist_failure-after :
      (will_retry : Bool) (exc : Failure) (db : Db) (c : Completion)
      → persist_failure set g spec job attempt
          (failure_of set g spec job attempt will_retry (retry_countdown (some exc)))
          db
          c
        ≡ after_failure set g spec job attempt will_retry (some exc) db c
  persist_failure-after will_retry exc db rejected = refl
  persist_failure-after will_retry exc db gone = refl
  persist_failure-after will_retry exc db broken = refl
  persist_failure-after will_retry exc db (recorded t) =
      retry_if-countdown will_retry set g job.id spec exc t

  persist_success-after :
      (later : Connection) (runtime_error : Failure) (db : Db) (c : Completion)
      → c ≢ broken
      → persist_success set g spec job attempt db c
        ≡ tables (after_success set g spec job attempt later runtime_error db c)
  persist_success-after later runtime_error db rejected h = refl
  persist_success-after later runtime_error db gone h = refl
  persist_success-after later runtime_error db broken h = absurd (h refl)
  persist_success-after later runtime_error db (recorded t) h = refl

  mark_job_success-ne-broken :
      (db : Db) → IsValid db → mark_job_success job.id (some job.version) attempt g.now db ≢ broken
  unfolding mark_job_success
  mark_job_success-ne-broken db v =
      mark_found-ne-broken (some job.version) attempt db v (find_live job.id db)
        (find_job job.id db.history)
    where
      mark_found-ne-broken :
          (version : Option ℕ) (h : Option AttemptHandle) (db : Db)
          → IsValid db
          → (live finished : Option Job)
          → mark_found job.id version Status.success
              (record { termination_reason = none; finished_at = some g.now })
              h
              Outcome.success
              g.now
              db
              live
              finished
            ≢ broken
      mark_found-ne-broken version h db v (some row) finished =
          fenced_update-ne-broken job.id version Status.success _ h Outcome.success g.now db v
      mark_found-ne-broken none none db v none (some row) = λ e. cc
      mark_found-ne-broken (some n) h db v none (some row) = λ e. cc
      mark_found-ne-broken none (some h) db v none (some row) = λ e. cc
      mark_found-ne-broken version h db v none none = λ e. cc

  -- On valid tables, a child that loses its connection before it writes the outcome, and leaves it to
  -- its parent, ends with the tables of a child that records the same outcome itself: those of its
  -- job, of the retry and of the ancestors.
  pub handed_over-run_job_in_child :
      (later : Connection) (runtime_error : Failure) (result : TaskResult) (db : Db)
      → IsValid db
      → handed_over set g spec job attempt
          (run_job_in_child set g spec job attempt lost_before later runtime_error result db)
        ≡ tables (run_job_in_child set g spec job attempt up later runtime_error result db)
  unfolding run_job_in_child persist_outcome
  handed_over-run_job_in_child later runtime_error returned db v =
      persist_success-after later runtime_error db
        (mark_job_success job.id (some job.version) attempt g.now db)
        (mark_job_success-ne-broken db v)
  handed_over-run_job_in_child later runtime_error (raised exc) db v =
      persist_failure-after (should_retry set spec (some exc)) exc db
        (mark_failed job.id (some job.version) (should_retry set spec (some exc)) attempt g.now db)
