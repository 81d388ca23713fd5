-- ===== src/Schedule.antt =====
-- Scheduled tasks: calculate_next_run and _enqueue_for_scheduled_task of
-- src/sqlery/core/scheduler.py, and advance_scheduled_task_if_due, get_due_scheduled_tasks,
-- has_pending_job_for_scheduled_task and the updates of src/sqlery/fastapi_sqlery/backend.py.
--
-- The table has one row for an id (its primary key), so it is a function. The cron library is a
-- parameter: the next occurrence strictly after a time. The job that a task enqueues goes through
-- create_job, as the session's hook gives it its ready entry.
pub mod NextRun
pub mod Once
mod Tests
use sqlery.Prelude.{
  ℕ, zero, suc, ◌+◌, ◌≤◌, ◌<◌, ◌≡◌, Bool, true, false, ◌&&◌, ◌||◌, not, Option, none, some, List,
  [], ◌∷◌, String, ltb, leb, ◌==◌, if◌then◌else◌,
}
use sqlery.Backend.{Job, Db}
use sqlery.Backend.Release.{create_job}
use sqlery.Ready.{Status}

pub data ScheduleType : Type 0 where
  cron : ScheduleType
  -- Its interval in seconds.
  interval : ℕ → ScheduleType
  once : ScheduleType
  other : ScheduleType

pub record ScheduledTask : Type 0 where
  pub schedule_type : ScheduleType
  -- none is the empty expression.
  pub cron_expression : Option ℕ
  pub queue_name : String
  pub enabled : Bool
  pub next_run_at : Option ℕ

-- The tasks, the tables of the job queue, and the live jobs with the task that enqueued each.
pub record Tables : Type 0 where
  pub tasks : ℕ → Option ScheduledTask
  pub db : Db
  pub enqueued : List (ℕ × ℕ)

abbrev pub put_task : ℕ → Option ScheduledTask → Tables → Tables
put_task t row s = record s { tasks = λ k. if k == t then row else s.tasks k }

-- A job of the task: `session.add(self._build_queued_job(job_kwargs))`.
abbrev pub enqueue : (slot t : ℕ) → Job → Tables → Tables
enqueue slot t job s = record s {
  db = create_job slot job s.db;
  enqueued = (t, job.id) ∷ s.enqueued;
}

abbrev pub is_some_of : ℕ → Option ℕ → Bool
is_some_of n none = false
is_some_of n (some m) = m == n

-- The branch under the row lock, on the row that it shows.
unfoldable pub advance_row :
    (slot t observed new : ℕ) → Job → Option ScheduledTask → Tables → Tables × Bool
advance_row slot t observed new job none s = (s, false)
advance_row slot t observed new job (some row) s = elim row.next_run_at [
  | none ↦ (s, false)
  | some due ↦
      if not row.enabled
      then (s, false)
      else if not (due == observed)
      then (s, false)
      else (enqueue slot t job (put_task t (some (record row { next_run_at = some new })) s), true)
]

-- `advance_scheduled_task_if_due` with the row lock.
unfoldable pub advance_locked : (slot t observed new : ℕ) → Job → Tables → Tables × Bool
advance_locked slot t observed new job s = advance_row slot t observed new job (s.tasks t) s

-- The rows that the predicate of the compare-and-swap matches.
abbrev pub is_due_row : ℕ → Option ScheduledTask → Bool
is_due_row observed none = false
is_due_row observed (some row) = is_some_of observed row.next_run_at && row.enabled

abbrev pub set_next_run : Option ℕ → Option ScheduledTask → Option ScheduledTask
set_next_run new none = none
set_next_run new (some row) = some (record row { next_run_at = new })

-- `advance_scheduled_task_if_due` with the compare-and-swap.
unfoldable pub advance_cas : (slot t observed new : ℕ) → Job → Tables → Tables × Bool
advance_cas slot t observed new job s =
    if is_due_row observed (s.tasks t)
    then (enqueue slot t job (put_task t (set_next_run (some new) (s.tasks t)) s), true)
    else (s, false)

-- `get_due_scheduled_tasks`: the test of its WHERE clause.
abbrev pub is_before_or_at : ℕ → Option ℕ → Bool
is_before_or_at now none = false
is_before_or_at now (some due) = leb due now

unfoldable pub is_due : (now : ℕ) → ScheduledTask → Bool
is_due now task = task.enabled && is_before_or_at now task.next_run_at

-- `has_pending_job_for_scheduled_task`, on the live rows.
abbrev pub is_waiting_status : Status → Bool
is_waiting_status Status.queued = true
is_waiting_status Status.running = true
is_waiting_status _ = false

abbrev pub is_pending_id : ℕ → List Job → Bool
is_pending_id j [] = false
is_pending_id j (job ∷ jobs) = (job.id == j && is_waiting_status job.status) || is_pending_id j jobs

unfoldable pub has_pending_job : ℕ → List (ℕ × ℕ) → List Job → Bool
has_pending_job t [] live = false
has_pending_job t ((t', j) ∷ rest) live =
    (t' == t && is_pending_id j live) || has_pending_job t rest live

-- `update_scheduled_task_next_run` and `update_scheduled_task(enabled=…, next_run_at=…)`
unfoldable pub update_next_run : ℕ → Option ℕ → Tables → Tables
update_next_run t next s = put_task t (set_next_run next (s.tasks t)) s

abbrev pub disable : Option ScheduledTask → Option ScheduledTask
disable none = none
disable (some row) = some (record row { enabled = false; next_run_at = none })

unfoldable pub disable_once : ℕ → Tables → Tables
disable_once t s = put_task t (disable (s.tasks t)) s

module _ (next_occurrence : (expression base : ℕ) → ℕ) where
  -- The loop of `calculate_next_run`: the candidate that it ends with.
  unfoldable pub clamp : (fuel expression now candidate : ℕ) → ℕ
  clamp zero expression now candidate = candidate
  clamp (suc iterations) expression now candidate =
      let rest = clamp iterations expression now (next_occurrence expression candidate) in
      if leb candidate now then rest else candidate

  -- `calculate_next_run`, with `_MAX_CLAMP_ITERATIONS` as `cap`.
  unfoldable pub calculate_next_run : (cap expression base now : ℕ) → ℕ
  calculate_next_run cap expression base now =
      let candidate = clamp cap expression now (next_occurrence expression base) in
      if leb candidate now then next_occurrence expression now else candidate

  -- What a caller of `_enqueue_for_scheduled_task` gets: none, or a job.
  abbrev pub is_cron : ScheduledTask → Option ℕ
  is_cron task = elim task.schedule_type [
    | cron ↦ task.cron_expression
    | interval seconds ↦ none
    | once ↦ none
    | other ↦ task.cron_expression
  ]

  abbrev pub after_enqueue : ScheduleType → ℕ → (now : ℕ) → Tables → Tables
  after_enqueue cron t now s = s
  after_enqueue other t now s = s
  after_enqueue (interval seconds) t now s =
      if ltb 0 seconds then update_next_run t (some (now + seconds)) s else s
  after_enqueue once t now s = disable_once t s

  -- `_enqueue_for_scheduled_task` of task `t` as `task` shows it, a task that was due: `s` are the
  -- tables after the jitter's sleep.
  unfoldable pub enqueue_for_scheduled_task :
      (cap slot t due now : ℕ) → ScheduledTask → Job → Tables → Tables × Bool
  unfolding calculate_next_run advance_cas has_pending_job
  enqueue_for_scheduled_task cap slot t due now task job s = elim (is_cron task) [
    | some expression ↦ advance_cas slot t due (calculate_next_run cap expression due now) job s
    | none ↦
        if has_pending_job t s.enqueued s.db.live
        then (s, false)
        else (after_enqueue task.schedule_type t now (enqueue slot t job s), true)
  ]
