-- ===== src/Backend/Recovery.antt =====
-- fastapi_sqlery/backend.py: jobs that are taken back from a worker, stopped by recovery, or settled
-- after their completion.
use sqlery.Prelude.{
  ℕ, Bool, true, false, not, ◌&&◌, ◌||◌, Option, none, some, List, [], ◌∷◌, Text, codes, ltb, ◌==◌,
  if◌then◌else◌,
}
use sqlery.Attempts
use sqlery.Attempts.{Outcome}
use sqlery.Backend.{Job, Db, select_where, first, find_live, delete_ready, delete_blocked}
use sqlery.Backend.Complete.{settled_values, status_fences}
use sqlery.Backend.Finish.{
  Values, no_fences, Finish, unchanged, row_count, moved, finish_in, status_code, or_else,
}
use sqlery.Backend.Release.{write_ready, all_jobs, is_child_of, moved_or}
use sqlery.Ready.{Status, is_queued, is_success, is_failed}
use sqlery.Retry

abbrev pub with_closed : ℕ → Outcome → (now : ℕ) → Db → Db
with_closed j outcome now db = record db {
  attempts = Attempts.close_unfenced j outcome now db.attempts;
}

-- The rows that an unfenced close of the job changes.
abbrev pub closable : ℕ → Db → ℕ
closable j db = Attempts.count_where (Attempts.is_open_for j) db.attempts

-- `fail_zombie_job`: the open attempt is abandoned and the job moves to history.
abbrev pub fail_row : Job → (now : ℕ) → Db → Bool × Db
fail_row job now db = moved_or db (
    finish_in job.id Status.failed
      (record { termination_reason = some (codes "zombie_job"); finished_at = some now })
      (record no_fences { created_at = some job.created_at }) now
      (with_closed job.id Outcome.abandoned now db))

unfoldable pub fail_zombie_job : (job_id now : ℕ) → Db → Bool × Db
fail_zombie_job j now db = elim (find_live j db) [
  | none ↦ (false, db)
  | some job ↦
      if not (is_queued job.status) || ltb (closable job.id db) 1
      then (false, db)
      else fail_row job now db
]

-- `release_job`: the attempt is abandoned and the entry returns.
unfoldable pub release_job : (slot job_id now : ℕ) → Db → Db
release_job slot j now db = elim (find_live j db) [
  | none ↦ db
  | some job ↦
      if not (is_queued job.status) || ltb (closable job.id db) 1
      then db
      else write_ready slot job (with_closed job.id Outcome.abandoned now db)
]

-- `is_terminal`
abbrev pub is_terminal : Status → Bool
is_terminal Status.success = true
is_terminal Status.failed = true
is_terminal Status.archived = true
is_terminal _ = false

abbrev pub release_outcome : Status → Outcome
release_outcome status = if is_success status then Outcome.success else Outcome.failed

-- The object-relational write of a status that is neither terminal nor `queued`: the row is found by
-- its primary key, and a status that changes drops the entries of the job.
abbrev pub set_row : Job → Status → Values → Job → Job
set_row job status values row =
    if (row.id == job.id) && (row.created_at == job.created_at)
    then record row {
      status = status;
      termination_reason = elim values.termination_reason [
        | none ↦ row.termination_reason
        | some reason ↦ reason
      ];
      finished_at = values.finished_at;
    }
    else row

abbrev pub set_rows : Job → Status → Values → List Job → List Job
set_rows job status values [] = []
set_rows job status values (row ∷ rows) =
    set_row job status values row ∷ set_rows job status values rows

abbrev pub write_status : Job → Status → Values → Db → Db
write_status job status values db =
    let written = record db { live = set_rows job status values db.live } in
    if status_code job.status == status_code status
    then written
    else delete_blocked job.id (delete_ready job.id written)

-- A terminal release commits also where the move changed nothing; only an exception rolls back.
abbrev pub keep_or : (before closed : Db) → Finish → Db
keep_or before closed (moved db) = db
keep_or before closed unchanged = closed
keep_or before closed row_count = before

abbrev pub defaults : Values → (now : ℕ) → Values
defaults values now = record values { finished_at = or_else values.finished_at (some now) }

abbrev pub release_row : (slot : ℕ) → Job → Status → Values → (now : ℕ) → Db → Db
release_row slot job status values now db =
    let closed = with_closed job.id (release_outcome status) now db in
    if is_terminal status
    then keep_or db closed (
        finish_in job.id status (defaults values now)
          (record no_fences { created_at = some job.created_at }) now closed)
    else if is_queued status
    then write_ready slot job closed
    else write_status job status (defaults values now) closed

-- `release_claimed_job`, without the worker's row.
unfoldable pub release_claimed_job :
    (slot job_id created_at : ℕ) (status : Status) (values : Values) (now : ℕ) → Db → Db
release_claimed_job slot j created_at status values now db =
    elim (first (select_where (λ job. (job.id == j) && (job.created_at == created_at)) db.live)) [
      | none ↦ db
      | some job ↦ release_row slot job status values now db
    ]

-- `abandon_attempts`
unfoldable pub abandon_attempts : (job_id now : ℕ) → Db → ℕ × Db
abandon_attempts j now db =
    (closable j db, record db { attempts = Attempts.abandon_open j now db.attempts })

abbrev pub committed : Db → Finish → Db
committed db (moved db') = db'
committed db _ = db

abbrev pub settle_row : Job → Status → (now : ℕ) → Db → Db
settle_row job status now db =
    committed db
      (finish_in job.id status (settled_values job) (status_fences job job.status) now db)

-- `settle_retry_pending`: no retry is owed, so the failed job is final.
unfoldable pub settle_retry_pending : (job_id now : ℕ) → Db → Db
settle_retry_pending j now db =
    elim (first (select_where (λ job. (job.id == j) && is_failed job.status) db.live)) [
      | none ↦ db
      | some job ↦ settle_row job Status.failed now db
    ]

-- `settle_status`
unfoldable pub settle_status : Status → (reason : Text) → (has_retry : Bool) → Option Status
settle_status Status.success reason has_retry = some Status.success
settle_status Status.archived reason has_retry = some Status.archived
settle_status Status.failed reason has_retry =
    if Retry.is_retry_pending (some reason)
    then none
    else some (if has_retry then Status.archived else Status.failed)
settle_status _ reason has_retry = none

abbrev pub has_child : ℕ → List Job → Bool
has_child j [] = false
has_child j (job ∷ jobs) = is_child_of j job || has_child j jobs

-- One round of `settle_finished_jobs`, for a job that the sweep read.
unfoldable pub settle_stray : Job → (now : ℕ) → Db → Db
settle_stray job now db =
    elim (settle_status job.status job.termination_reason (has_child job.id (all_jobs db))) [
      | none ↦ db
      | some status ↦ settle_row job status now db
    ]
