-- ===== src/Backend/Tests.antt =====
-- Small tables, built by the operations themselves.
mod Scanning
mod Sweeps
mod Cleanups
use sqlery.Prelude.{true, ap, subst, ℕ, ◌≡◌, ◌≤◌, refl, none, some, false, [], ◌∷◌}
use sqlery.Attempts.{
  Outcome, AttemptHandle, count_where, open_attempt_exists, update_where, new_attempt,
  claim_verdict,
}
use sqlery.Attempts.Close.{open_count}
use sqlery.Backend.{true, Job, Run, Db, Claimer, start_attempt, close_attempt}
use sqlery.Backend.Claim.{atomic_claim_job}
use sqlery.Backend.Claims.{atomic_claim_job-IsClaim, IsClaim}
use sqlery.Backend.Cleanup.{delete_history_batch}
use sqlery.Backend.Complete
use sqlery.Backend.Complete.{Completion, rejected, recorded, fenced_update}
use sqlery.Backend.Done.{fenced_update-IsDone, IsDone}
use sqlery.Backend.Fencing.{fenced_update-once}
use sqlery.Backend.Finish.{finish_in, Values}
use sqlery.Backend.Kept.{Lives, starts, runs, cleans, Lives-Kept, Kept}
use sqlery.Backend.Places.{places, rows_of}
use sqlery.Backend.Release.{write_ready, create_job}
use sqlery.Backend.Trace
use sqlery.Backend.Trace.{
  IsValid-empty, IsValid-Reach, Reach, Step, creates, claims, completes, empty, step, Reach-one,
}
use sqlery.Ready.{Status}
use sqlery.Retry.{is_retry_pending}

abbrev nobody : Run
nobody = record { started_at = none; worker_id = none; worker_pid = none; child_pid = none }

abbrev pub job : ℕ → Job
job i = record {
  id = i;
  created_at = 10;
  status = Status.queued;
  version = 1;
  queue_name = "default";
  priority = 0;
  scheduled_at = none;
  ttl = none;
  tags = [];
  dependencies = [];
  parent_job_id = none;
  termination_reason = [];
  finished_at = none;
  run = nobody;
}

abbrev pub claimer : ℕ → Claimer
claimer token = record {
  worker_id = some 3;
  worker_pid = 77;
  token = token;
  now = 20;
  row_locked = λ j. false;
}

abbrev handle : AttemptHandle
handle = record {
  id = 0;
  token = 5;
  job_id = 1;
  claimed_at = 20;
  worker_id = some 3;
  worker_pid = 77;
}

-- Job 1 is created, claimed and completed.
abbrev created : Db
created = record empty {
  live = job 1 ∷ [];
  ready =
      record {
        slot = 0;
        job_id = 1;
        queue_name = "default";
        priority = 0;
        created_at = 10;
        scheduled_at = none;
      }
      ∷ [];
}

abbrev running : Db
running = record empty {
  live = job 1 ∷ [];
  attempts =
      record {
        id = 0;
        job_id = 1;
        token = 5;
        worker_id = some 3;
        worker_pid = 77;
        child_pid = none;
        claimed_at = 20;
        finished_at = none;
        outcome = none;
      }
      ∷ [];
  next_attempt = 1;
}

abbrev values : Values
values = record { termination_reason = none; finished_at = some 30 }

abbrev finished : Db
finished = record empty {
  history =
      record (job 1) {
        status = Status.success;
        version = 2;
        finished_at = some 30;
        run = record {
          started_at = some 20;
          worker_id = some 3;
          worker_pid = some 77;
          child_pid = none;
        };
      }
      ∷ [];
  attempts =
      record {
        id = 0;
        job_id = 1;
        token = 5;
        worker_id = some 3;
        worker_pid = 77;
        child_pid = none;
        claimed_at = 20;
        finished_at = some 30;
        outcome = some Outcome.success;
      }
      ∷ [];
  next_attempt = 1;
}

creation : create_job 0 (job 1) empty ≡ created
unfolding create_job write_ready open_attempt_exists
creation = refl

claim : atomic_claim_job (claimer 5) (job 1) created ≡ (some handle, running)
unfolding atomic_claim_job start_attempt claim_verdict open_attempt_exists new_attempt
claim = refl

completion :
    fenced_update 1 (some 1) Status.success values (some handle) Outcome.success 30 running
    ≡ recorded finished
unfolding fenced_update close_attempt count_where update_where finish_in open_attempt_exists
    is_retry_pending
completion = refl

Reach-created : Reach empty created
unfolding rows_of
Reach-created = subst (Reach empty) creation (step Trace.start (creates 0 (job 1) refl))

Reach-running : Reach empty running
Reach-running =
    subst (λ r. Reach empty r) (ap (λ r. r.1) claim)
      (step Reach-created (claims (claimer 5) (job 1)))

Reach-finished : Reach empty finished
Reach-finished =
    subst (λ r. Reach empty (Complete.after running r)) completion
      (step Reach-running
        (completes 1 (some 1) Status.success values (some handle) Outcome.success 30))

Reach-one_example :
    (places 1 finished ≤ 1)
    × (open_count 1 finished.attempts ≤ 1)
    × (1 ≤ rows_of 1 finished.history → open_count 1 finished.attempts ≡ 0)
Reach-one_example = Reach-one Reach-finished 1

-- The life of job 1, in which a cleanup deletes another job.
Lives-Kept_example : Kept created (delete_history_batch (2 ∷ []) (λ job. true) finished).1 1
Lives-Kept_example = Lives-Kept (
    cleans (2 ∷ []) (λ job. true)
      (subst (λ r. Lives 1 created (Complete.after running r)) completion
        (runs
          (subst (λ r. Lives 1 created r) (ap (λ r. r.1) claim)
            (runs starts (claims (claimer 5) (job 1))))
          (completes 1 (some 1) Status.success values (some handle) Outcome.success 30)))
      (λ job e. rw e refl))

fenced_update-once_example :
    fenced_update 1 none Status.failed values (some handle) Outcome.failed 40 finished ≡ rejected
fenced_update-once_example =
    fenced_update-once 1 (some 1) Status.success values handle Outcome.success 30 running finished
      finished (IsValid-Reach IsValid-empty Reach-running) completion Trace.start 1 none
      Status.failed values Outcome.failed 40

atomic_claim_job-IsClaim_example : IsClaim (claimer 5) (job 1) created handle running
atomic_claim_job-IsClaim_example =
    atomic_claim_job-IsClaim (claimer 5) (job 1) created (IsValid-Reach IsValid-empty Reach-created)
      handle running claim

fenced_update-IsDone_example :
    IsDone 1 running
      (fenced_update 1 (some 1) Status.success values (some handle) Outcome.success 30 running)
fenced_update-IsDone_example =
    fenced_update-IsDone (claimer 5) (job 1) created (IsValid-Reach IsValid-empty Reach-created)
      handle running
      (atomic_claim_job-IsClaim (claimer 5) (job 1) created
        (IsValid-Reach IsValid-empty Reach-created) handle running claim)
      Status.success values Outcome.success 30 refl
