-- ===== src/Worker/Child.antt =====
-- The outcome of a job in src/sqlery/core/worker.py: _retry_job, run_job_in_child, persist_outcome and
-- a round of cleanup_stale_jobs.
use sqlery.Prelude.{ℕ, ◌+◌, Bool, true, false, Option, none, some, [], ltb, if◌then◌else◌}
use sqlery.Attempts.{AttemptHandle}
use sqlery.Backend.{Run, Job, Db, find_live}
use sqlery.Backend.Ancestors.{cascade_ancestor_status, find_job}
use sqlery.Backend.Complete
use sqlery.Backend.Complete.{Completion, rejected, gone, broken, recorded, mark_job_archived}
use sqlery.Backend.Recovery.{settle_retry_pending}
use sqlery.Backend.Release.{create_job, all_jobs, newest_child}
use sqlery.Ready.{Status}
use sqlery.Retry.{
  JobSpec, Failure, RetryPolicy, or_zero, shape_retry_delay, retry_countdown, backoff_or_default,
}
use sqlery.Staging.{is_staged}
use sqlery.Worker.{Settings, compute_retry_delay, should_retry, mark_job_success, mark_failed}

-- What the database and the clock give: the slot of a ready entry, the id and time of a new row, the
-- time of the completion, and the fuel of the walk over ancestors; the partitions and their setting.
pub record Given : Type 0 where
  pub slot : ℕ
  pub new_id : ℕ
  pub created_at : ℕ
  pub now : ℕ
  pub fuel : ℕ
  -- Whether the tables are partitioned, and from which delay on a job is staged then.
  pub partitioned : Bool
  pub threshold : ℕ

abbrev no_run : Run
no_run = record { started_at = none; worker_id = none; worker_pid = none; child_pid = none }

abbrev no_policy : RetryPolicy
no_policy = record { autoretry_for = none; backoff_max = none; jitter = none }

abbrev pub or_else : Option ℕ → Option ℕ → Option ℕ
or_else none b = b
or_else (some a) b = some a

-- The delay that `_retry_job` computes.
unfoldable pub delay_of : Settings → JobSpec → Option Failure → Option ℕ → ℕ
unfolding compute_retry_delay
delay_of set spec exc countdown =
    shape_retry_delay set.uniform set.jitter
      (elim set.policy [ none ↦ no_policy | some policy ↦ policy ])
      (compute_retry_delay set (backoff_or_default spec.retry_backoff) (or_zero spec.retry_count)
        spec.retry_intervals)
      (or_else countdown (retry_countdown exc))

-- The row of a retry: the time to live of the job in the queue is not carried over.
abbrev pub retry_row : Given → (delay : ℕ) → Job → Job
retry_row g delay failed = record failed {
  id = g.new_id;
  created_at = g.created_at;
  status = Status.queued;
  version = 0;
  scheduled_at = some (g.now + delay);
  ttl = none;
  parent_job_id = some failed.id;
  termination_reason = [];
  finished_at = none;
  run = no_run;
}

-- `_finish_retry_bookkeeping`: each of the two calls is a transaction, whose errors are logged.
unfoldable pub finish_retry_bookkeeping : (j now : ℕ) → Db → Db
finish_retry_bookkeeping j now db =
    settle_retry_pending j now (Complete.after db (mark_job_archived j now db))

-- Whether `create_job` stages the retry.
abbrev pub is_retry_staged : Given → (delay : ℕ) → Bool
is_retry_staged g delay = is_staged g.partitioned g.now g.threshold (some (g.now + delay))

-- `create_job` for the retry: a staged job goes to another table, which is not among these (see
-- Staging), and no live row has the name of the retry.
abbrev pub create_retry : Given → (delay : ℕ) → Job → Db → Db
create_retry g delay failed db =
    if is_retry_staged g delay then db else create_job g.slot (retry_row g delay failed) db

-- `_retry_job`: a retry that exists is reused; `get_latest_retry` does not look among staged jobs.
abbrev pub retry_by : Given → (delay : ℕ) → Job → Db → Option Job → Db
retry_by g delay failed db (some existing) = finish_retry_bookkeeping failed.id g.now db
retry_by g delay failed db none =
    finish_retry_bookkeeping failed.id g.now (create_retry g delay failed db)

unfoldable pub retry_job : Settings → Given → JobSpec → Option Failure → Option ℕ → Job → Db → Db
retry_job set g spec exc countdown failed db =
    retry_by g (delay_of set spec exc countdown) failed db
      (newest_child none failed.id (all_jobs db))

-- The job that a completion returns, `_find_job`: the live row, else the one in history.
abbrev pub found : (live finished : Option Job) → Option Job
found (some job) finished = some job
found none finished = finished

abbrev pub retry_found :
    Settings → Given → JobSpec → Option Failure → Option ℕ → Db → Option Job → Db
retry_found set g spec exc countdown db none = db
retry_found set g spec exc countdown db (some failed) = retry_job set g spec exc countdown failed db

abbrev pub retry_if :
    Bool → Settings → Given → (j : ℕ) → JobSpec → Option Failure → Option ℕ → Db → Db
retry_if false set g j spec exc countdown db = db
retry_if true set g j spec exc countdown db =
    retry_found set g spec exc countdown db (found (find_live j db) (find_job j db.history))

-- A retry that succeeded settles its ancestors.
abbrev pub cascade_if : Given → (parent : Option ℕ) → (j : ℕ) → Db → Db
cascade_if g none j db = db
cascade_if g (some p) j db =
    if ltb 0 p then cascade_ancestor_status g.fuel j Status.success g.now db else db

pub record UnpersistedOutcome : Type 0 where
  pub job_id : ℕ
  pub success : Bool
  pub expected_version : Option ℕ
  pub attempt : Option AttemptHandle
  pub will_retry : Bool
  pub countdown : Option ℕ

-- What the task ends with.
pub data TaskResult : Type 0 where
  returned : TaskResult
  raised : Failure → TaskResult

-- A write of an outcome: seen by the child, or lost with the connection before or after its commit.
pub data Connection : Type 0 where
  up lost_before lost_after : Connection

-- The child after the job: the tables, its exit code, and the outcome that it leaves for the parent.
-- `crashed` is an exception that leaves run_job_in_child.
pub data Child : Type 0 where
  exited : Db → (code : ℕ) → Option UnpersistedOutcome → Child
  crashed : Db → Child

abbrev pub tables : Child → Db
tables (exited db code unpersisted) = db
tables (crashed db) = db

abbrev pub left_over : Child → Option UnpersistedOutcome
left_over (exited db code unpersisted) = unpersisted
left_over (crashed db) = none

module _ (set : Settings) (g : Given) (spec : JobSpec) (job : Job)
    (attempt : Option AttemptHandle) where
  abbrev pub failure_of : Bool → Option ℕ → UnpersistedOutcome
  failure_of will_retry countdown = record {
    job_id = job.id;
    success = false;
    expected_version = some job.version;
    attempt = attempt;
    will_retry = will_retry;
    countdown = countdown;
  }

  abbrev pub success_of : UnpersistedOutcome
  success_of = record {
    job_id = job.id;
    success = true;
    expected_version = some job.version;
    attempt = attempt;
    will_retry = false;
    countdown = none;
  }

  -- The failure was written, or not, and the child saw it: every other error is logged.
  abbrev pub after_failure : Bool → Option Failure → Db → Completion → Db
  after_failure will_retry exc db (recorded db') =
      retry_if will_retry set g job.id spec exc none db'
  after_failure will_retry exc db _ = db

  -- The handler of run_job_in_child.
  abbrev pub fail_in_child : Connection → Failure → Db → Child
  fail_in_child up exc db =
      let will_retry = should_retry set spec (some exc) in
      exited
        (after_failure will_retry (some exc) db
          (mark_failed job.id (some job.version) will_retry attempt g.now db))
        1 none
  fail_in_child lost_before exc db =
      exited db 1
        (some (failure_of (should_retry set spec (some exc)) (retry_countdown (some exc))))
  fail_in_child lost_after exc db =
      let will_retry = should_retry set spec (some exc) in
      exited (Complete.after db (mark_failed job.id (some job.version) will_retry attempt g.now db))
        1 (some (failure_of will_retry (retry_countdown (some exc))))

  -- The success was written, or not, and the child saw it. A RuntimeError of `_finish_in` is handled
  -- as a failure of the job; a job that is gone is dereferenced.
  abbrev pub after_success : Connection → (runtime_error : Failure) → Db → Completion → Child
  after_success later runtime_error db (recorded db') =
      exited (cascade_if g job.parent_job_id job.id db') 0 none
  after_success later runtime_error db rejected = exited db 0 none
  after_success later runtime_error db gone = crashed db
  after_success later runtime_error db broken = fail_in_child later runtime_error db

  abbrev pub succeed_in_child : Connection → Connection → (runtime_error : Failure) → Db → Child
  succeed_in_child up later runtime_error db =
      after_success later runtime_error db
        (mark_job_success job.id (some job.version) attempt g.now db)
  succeed_in_child lost_before later runtime_error db = exited db 0 (some success_of)
  succeed_in_child lost_after later runtime_error db =
      exited (Complete.after db (mark_job_success job.id (some job.version) attempt g.now db)) 0
        (some success_of)

  -- `run_job_in_child`, from the result of the task; the first connection carries the write of the
  -- outcome, the second one that of a failure after a RuntimeError.
  unfoldable pub run_job_in_child :
      Connection → Connection → (runtime_error : Failure) → TaskResult → Db → Child
  run_job_in_child connection later runtime_error returned db =
      succeed_in_child connection later runtime_error db
  run_job_in_child connection later runtime_error (raised exc) db = fail_in_child connection exc db

  -- The completion that the child writes first.
  abbrev pub completion_of : TaskResult → Db → Completion
  completion_of returned db = mark_job_success job.id (some job.version) attempt g.now db
  completion_of (raised exc) db =
      mark_failed job.id (some job.version) (should_retry set spec (some exc)) attempt g.now db

  abbrev pub persist_success : Db → Completion → Db
  persist_success db (recorded db') = cascade_if g job.parent_job_id job.id db'
  persist_success db _ = db

  abbrev pub persist_failure : UnpersistedOutcome → Db → Completion → Db
  persist_failure o db (recorded db') =
      retry_if o.will_retry set g o.job_id spec none o.countdown db'
  persist_failure o db _ = db

  -- `persist_outcome`: the parent's write, on a connection that works.
  unfoldable pub persist_outcome : UnpersistedOutcome → Db → Db
  persist_outcome o db =
      if o.success
      then persist_success db (mark_job_success o.job_id o.expected_version o.attempt g.now db)
      else persist_failure o db
          (mark_failed o.job_id o.expected_version o.will_retry o.attempt g.now db)

  -- The tables once the parent has persisted what the child left.
  abbrev pub handed_over : Child → Db
  handed_over (exited db code none) = db
  handed_over (exited db code (some o)) = persist_outcome o db
  handed_over (crashed db) = db
