-- ===== src/Schedule/Tests.antt =====
-- Scheduled tasks at concrete tables: a task that runs every minute.
use sqlery.Prelude.{ℕ, ◌+◌, ◌*◌, ◌/◌, ◌≤◌, ◌<◌, ◌≡◌, true, false, none, some, [], arith, refl, max}
use sqlery.Backend.{Job}
use sqlery.Backend.Trace.{empty}
use sqlery.Ready.{Status}
use sqlery.Schedule.{
  Tables, ScheduledTask, cron, calculate_next_run, advance_cas, advance_locked,
  enqueue_for_scheduled_task, clamp,
}
use sqlery.Schedule.NextRun.{IsNext, calculate_next_run-next}
use sqlery.Schedule.Once.{start, step, works, advance_cas-once}

abbrev minutely : ℕ → ℕ → ℕ
minutely expression base = (base / 60 + 1) * 60

minutely_later : (expression base : ℕ) → base < minutely expression base
minutely_later expression base = omega arith

minutely_nearest :
    (expression base time : ℕ)
    → base ≤ time
    → time < minutely expression base
    → minutely expression time ≡ minutely expression base
minutely_nearest expression base time h k = omega arith

minutely-IsNext : IsNext minutely
minutely-IsNext = record { later = minutely_later; nearest = minutely_nearest }

abbrev job : Job
job = record {
  id = 1;
  created_at = 650;
  status = Status.queued;
  version = 0;
  queue_name = "default";
  priority = 0;
  scheduled_at = none;
  ttl = none;
  tags = [];
  dependencies = [];
  parent_job_id = none;
  termination_reason = [];
  finished_at = none;
  run = record { started_at = none; worker_id = none; worker_pid = none; child_pid = none };
}

-- Task 5 is due at 600.
abbrev task : ScheduledTask
task = record {
  schedule_type = cron;
  cron_expression = some 1;
  queue_name = "default";
  enabled = true;
  next_run_at = some 600;
}

abbrev tables : Tables
tables = record { tasks = λ k. some task; db = empty; enqueued = [] }

skips_missed : calculate_next_run minutely 3 1 600 1000 ≡ 1020
unfolding calculate_next_run clamp
skips_missed = refl

fires_once : (enqueue_for_scheduled_task minutely 9 0 5 600 650 task job tables).1 ≡ true
unfolding enqueue_for_scheduled_task clamp
fires_once = refl

calculate_next_run-next_example :
    calculate_next_run minutely 3 1 600 1000 ≡ minutely 1 (max 600 1000)
calculate_next_run-next_example = calculate_next_run-next minutely minutely-IsNext 3 1 600 1000

abbrev fired : Tables
fired = (advance_cas 0 5 600 (calculate_next_run minutely 9 1 600 650) job tables).0

advance_cas-once_example :
    (advance_cas 2 5 600 720 job (record fired { db = empty; enqueued = [] })
      ≡ (record fired { db = empty; enqueued = [] }, false))
    × (advance_locked 2 5 600 720 job (record fired { db = empty; enqueued = [] })
        ≡ (record fired { db = empty; enqueued = [] }, false))
unfolding advance_cas calculate_next_run
advance_cas-once_example =
    advance_cas-once minutely minutely-IsNext 9 0 5 600 1 650 job tables
      (record fired { db = empty; enqueued = [] }) refl (step start (works empty [])) 2 720 job
