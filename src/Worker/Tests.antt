-- ===== src/Worker/Tests.antt =====
-- Worker children at concrete tables: one job, claimed, with two retries left.
use sqlery.Prelude.{◌≡◌, max, true, false, none, some, [], ◌∷◌, arith, refl}
use sqlery.Attempts.{
  AttemptHandle, count_where, open_attempt_exists, update_where, new_attempt, claim_verdict,
}
use sqlery.Backend.{Job, Run, Db, Claimer, start_attempt, close_attempt}
use sqlery.Backend.Claim.{atomic_claim_job}
use sqlery.Backend.Complete
use sqlery.Backend.Complete.{recorded, fenced_update, mark_job_archived}
use sqlery.Backend.Finish.{finish_in}
use sqlery.Backend.OneAttempt.{IsValid}
use sqlery.Backend.Places.{rows_of}
use sqlery.Backend.Release.{create_job}
use sqlery.Backend.Trace
use sqlery.Backend.Trace.{empty, Reach, step, creates, claims, IsValid-empty, IsValid-Reach}
use sqlery.Ready.{Status}
use sqlery.Retry.{
  retry_countdown, shape_retry_delay, JobSpec, Failure, policy_allows_retry, is_retry_pending,
}
use sqlery.Staging.{is_staged}
use sqlery.Worker.{Settings, should_retry, mark_job_success, compute_retry_delay}
use sqlery.Worker.Child.{
  delay_of, Given, returned, raised, up, lost_before, run_job_in_child, persist_outcome,
  handed_over, tables, retry_job, success_of,
}
use sqlery.Worker.HandOver.{handed_over-run_job_in_child}
use sqlery.Worker.Once.{persist_outcome-once}
use sqlery.Worker.Retries.{retries, retries-retry_job}
use sqlery.Worker.Stale.{cleanup_stale_job}
use sqlery.Worker.Sweep.{cleanup_stale_job-retries_ended}

abbrev nobody : Run
nobody = record { started_at = none; worker_id = none; worker_pid = none; child_pid = none }

abbrev job : Job
job = record {
  id = 7;
  created_at = 10;
  status = Status.queued;
  version = 1;
  queue_name = "default";
  priority = 0;
  scheduled_at = none;
  ttl = none;
  tags = [];
  dependencies = [];
  parent_job_id = none;
  termination_reason = [];
  finished_at = none;
  run = nobody;
}

abbrev claimer : Claimer
claimer = record {
  worker_id = some 3;
  worker_pid = 77;
  token = 5;
  now = 20;
  row_locked = λ j. false;
}

abbrev handle : AttemptHandle
handle = record {
  id = 0;
  token = 5;
  job_id = 7;
  claimed_at = 20;
  worker_id = some 3;
  worker_pid = 77;
}

abbrev enqueued : Db
enqueued = create_job 0 job empty

abbrev running : Db
running = (atomic_claim_job claimer job enqueued).1

running-IsValid : IsValid running
unfolding rows_of
running-IsValid =
    IsValid-Reach IsValid-empty (step (step Trace.start (creates 0 job refl)) (claims claimer job))

abbrev set : Settings
set = record { backoff_max = none; jitter = false; policy = none; uniform = λ d. d }

abbrev given : Given
given = record {
  slot = 0;
  new_id = 8;
  created_at = 31;
  now = 30;
  fuel = 5;
  partitioned = true;
  threshold = 86400;
}

abbrev spec : JobSpec
spec = record {
  id = 7;
  retry_count = some 0;
  max_retries = some 2;
  retry_backoff = none;
  retry_intervals = [];
  parent_job_id = none;
  priority = none;
  dependencies = [];
}

abbrev exception : Failure
exception = record { is_retry = false; countdown = none; classes = [] }

intervals_end : compute_retry_delay set 1 5 (10 ∷ 20 ∷ []) ≡ 20
unfolding compute_retry_delay
intervals_end = refl

handed_over-run_job_in_child_example :
    handed_over set given spec job (some handle) (
      run_job_in_child set given spec job
        (some handle)
        lost_before
        up
        exception
        (raised exception)
        running)
    ≡ tables (
        run_job_in_child set given spec job
          (some handle)
          up
          up
          exception
          (raised exception)
          running)
handed_over-run_job_in_child_example =
    handed_over-run_job_in_child set given spec job (some handle) up exception (raised exception)
      running running-IsValid

retries-retry_job_example :
    retries 7 (retry_job set given spec (some exception) none job enqueued)
    ≡ max 1 (retries 7 enqueued)
unfolding is_staged delay_of shape_retry_delay retry_countdown
retries-retry_job_example = retries-retry_job set given spec (some exception) none job enqueued refl

-- The success was committed, and the connection lost.
abbrev finished : Db
finished = Complete.after running (mark_job_success 7 (some 1) (some handle) 30 running)

written : mark_job_success 7 (some 1) (some handle) 30 running ≡ recorded finished
unfolding mark_job_success fenced_update close_attempt count_where update_where finish_in
    atomic_claim_job start_attempt open_attempt_exists new_attempt claim_verdict create_job
    is_retry_pending
written = refl

persist_outcome-once_example :
    persist_outcome set given spec job
      (some handle)
      (success_of set given spec job (some handle))
      finished
    ≡ finished
unfolding run_job_in_child
persist_outcome-once_example =
    persist_outcome-once set given spec job handle running finished finished running-IsValid
      Trace.start up exception returned written (success_of set given spec job (some handle)) refl

abbrev succeeded : Job
succeeded = record job { status = Status.success; version = 2; finished_at = some 30 }

abbrev ended : Db
ended = record empty { history = succeeded ∷ [] }

allowed : should_retry set spec none ≡ true
unfolding should_retry policy_allows_retry
allowed = refl

-- The job took 30 seconds with a timeout of 10, and succeeded just before the sweep failed it.
cleanup_stale_job-retries_ended_example :
    retries 7 (cleanup_stale_job set given spec 7 (some 0) (some 10) ended)
    ≡ max 1 (retries 7 ended)
unfolding is_staged delay_of shape_retry_delay retry_countdown
cleanup_stale_job-retries_ended_example =
    cleanup_stale_job-retries_ended set given spec 7 ended succeeded refl refl 0 (some 10)
      (omega arith) allowed refl
