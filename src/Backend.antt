-- ===== src/Backend.antt =====
-- fastapi_sqlery/backend.py with fastapi_sqlery/history_sql.py and core/ready_sql.py: the tables of the
-- job queue and the statements that its transactions are made of. A transaction is a function of the
-- tables; one that rolls back returns the tables as they were.
pub mod Finish
pub mod Places
pub mod Effect
pub mod Made
pub mod Recorded
pub mod Claim
pub mod Complete
pub mod Release
pub mod Recovery
pub mod Ancestors
pub mod Scan
pub mod Rounds
pub mod Turned
pub mod Scanned
pub mod Entries
pub mod Ends
pub mod Order
pub mod Dependents
pub mod Shorter
pub mod Releases
pub mod Requeued
pub mod Stopped
pub mod OneAttempt
pub mod Walks
pub mod WalkEnds
pub mod Trace
pub mod Fencing
pub mod Kept
pub mod Claims
pub mod Done
pub mod Whole
pub mod Counted
pub mod Cleanup
pub mod Deleted
pub mod Cleaned
pub mod Sweep
pub mod Repaired
pub mod Repairs
pub mod Swept
pub mod Sweeping
mod Tests
use sqlery.Prelude.{
  ℕ, zero, suc, ◌+◌, Bool, true, false, not, ◌&&◌, ◌||◌, Option, none, some, List, [], ◌∷◌, ◌++◌,
  String, Text, ◌==◌, leb, ltb, if◌then◌else◌, mem, length, map,
}
use sqlery.Attempts
use sqlery.Attempts.{
  Attempt, AttemptHandle, Outcome, open_attempt_exists, is_open_for, closed, update_where,
  new_attempt, claim_verdict, Verdict,
}
use sqlery.Ready.{Status, is_queued, dependency_ids}

-- When, and by whom, a job was run.
pub record Run : Type 0 where
  pub started_at : Option ℕ
  pub worker_id : Option ℕ
  pub worker_pid : Option ℕ
  pub child_pid : Option ℕ

pub record Job : Type 0 where
  pub id : ℕ
  pub created_at : ℕ
  pub status : Status
  pub version : ℕ
  pub queue_name : String
  pub priority : ℕ
  pub scheduled_at : Option ℕ
  pub ttl : Option ℕ
  pub tags : List String
  pub dependencies : List (Option ℕ)
  pub parent_job_id : Option ℕ
  pub termination_reason : Text
  pub finished_at : Option ℕ
  pub run : Run

pub record ReadyEntry : Type 0 where
  pub slot : ℕ
  pub job_id : ℕ
  pub queue_name : String
  pub priority : ℕ
  pub created_at : ℕ
  pub scheduled_at : Option ℕ

pub record BlockedRow : Type 0 where
  pub job_id : ℕ
  pub dependency_id : ℕ
  pub created_at : ℕ

-- The live table, history, the ready and the blocked entries, the attempts and their next id.
pub record Db : Type 0 where
  pub live : List Job
  pub history : List Job
  pub ready : List ReadyEntry
  pub blocked : List BlockedRow
  pub attempts : List Attempt
  pub next_attempt : ℕ

abbrev pub select_where {ℓ} : {A : Type ℓ} → (A → Bool) → List A → List A
select_where test [] = []
select_where test (x ∷ xs) = if test x then x ∷ select_where test xs else select_where test xs

abbrev pub first {ℓ} : {A : Type ℓ} → List A → Option A
first [] = none
first (x ∷ xs) = some x

abbrev pub job_ids : List Job → List ℕ
job_ids = map (λ j. j.id)

-- `delete_ready_stmt([j])` and `delete_blocked_stmt([j])`.
abbrev pub delete_ready : ℕ → Db → Db
delete_ready j db = record db { ready = select_where (λ e. not (e.job_id == j)) db.ready }

abbrev pub delete_blocked : ℕ → Db → Db
delete_blocked j db = record db { blocked = select_where (λ b. not (b.job_id == j)) db.blocked }

abbrev pub ready_count : ℕ → Db → ℕ
ready_count j db = length (select_where (λ e. e.job_id == j) db.ready)

-- `_is_running`
abbrev pub is_running : ℕ → Db → Bool
is_running j db = open_attempt_exists j db.attempts

-- `select(QueuedJob).where(QueuedJob.id == j)`
abbrev pub find_live : ℕ → Db → Option Job
find_live j db = first (select_where (λ job. job.id == j) db.live)

-- The claimer: its worker row, process, fresh token and time, and the job rows that other
-- transactions have locked.
pub record Claimer : Type 0 where
  pub worker_id : Option ℕ
  pub worker_pid : ℕ
  pub token : ℕ
  pub now : ℕ
  pub row_locked : ℕ → Bool

-- `_open_attempt`
abbrev pub handle_of : Attempt → AttemptHandle
handle_of a = record {
  id = a.id;
  token = a.token;
  job_id = a.job_id;
  claimed_at = a.claimed_at;
  worker_id = a.worker_id;
  worker_pid = a.worker_pid;
}

abbrev pub insert_attempt : Claimer → ℕ → Db → Db
insert_attempt c j db = record db {
  attempts =
      db.attempts ++ new_attempt db.next_attempt j c.token c.worker_id c.worker_pid c.now ∷ [];
  next_attempt = db.next_attempt + 1;
}

abbrev pub open_attempt : Claimer → ℕ → Db → AttemptHandle × Db
open_attempt c j db = (
  record {
    id = db.next_attempt;
    token = c.token;
    job_id = j;
    claimed_at = c.now;
    worker_id = c.worker_id;
    worker_pid = c.worker_pid;
  },
  insert_attempt c j db,
)

pub data Start : Type 0 where
  restore keep : Start
  claimed : AttemptHandle → Db → Start

-- The verdict on the row that was read under its lock.
abbrev pub judge_row : Claimer → (expected : Job) → (row : Job) → Db → Start
judge_row c expected row db =
    let running = is_running expected.id db in
    let (handle, after) = open_attempt c expected.id db in
    elim (claim_verdict row.status (some row.version) (some expected.version) running) [
      | Verdict.ok ↦ claimed handle after
      | Verdict.stale ↦ if not (is_queued row.status) || running then keep else restore
    ]

-- `_start_attempt`: `job` is the job as the claimer read it, before it took the entry.
unfoldable pub start_attempt : Claimer → Job → Db → Start
start_attempt c job db =
    elim (first (
      select_where
        (λ row.
          (row.id == job.id) && (row.created_at == job.created_at) && not (c.row_locked row.id))
        db.live)) [ none ↦ restore | some row ↦ judge_row c job row db ]

-- `_close_attempt`: `none` is `JobFencingError`.
unfoldable pub close_attempt :
    (job_id : ℕ) → Option AttemptHandle → Outcome → (now : ℕ) → Db → Option Db
close_attempt j none outcome now db =
    some (record db { attempts = Attempts.close_unfenced j outcome now db.attempts })
close_attempt j (some h) outcome now db =
    if Attempts.decide_close (Attempts.count_where (Attempts.is_exact h) db.attempts)
    then some (record db { attempts = Attempts.close_exact h outcome now db.attempts })
    else none
