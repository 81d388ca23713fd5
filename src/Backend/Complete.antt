-- ===== src/Backend/Complete.antt =====
-- fastapi_sqlery/backend.py: recording a completion, fenced by the attempt and by the row's version.
use sqlery.Prelude.{
  ℕ, ◌+◌, Bool, ◌&&◌, Option, none, some, List, [], ◌∷◌, ltb, ◌==◌, if◌then◌else◌, length,
}
use sqlery.Attempts.{is_open_for, Attempt, AttemptHandle, Outcome}
use sqlery.Backend.{Job, Db, select_where, close_attempt}
use sqlery.Backend.Finish.{
  run_of, last, Fences, Values, no_fences, matches, or_else, Finish, unchanged, row_count, moved,
  finish_in,
}
use sqlery.Ready.{Status, is_failed}
use sqlery.Retry.{is_retry_pending, settled_reason}

pub data Completion : Type 0 where
  -- `JobFencingError`: the caller is superseded.
  rejected : Completion
  -- No row matched and there was no version to fence with.
  gone : Completion
  -- `RuntimeError` of `_finish_in`.
  broken : Completion
  recorded : Db → Completion

-- The tables after a completion: each error rolls the transaction back.
abbrev pub after : Db → Completion → Db
after db (recorded db') = db'
after db _ = db

abbrev pub not_applied : Option ℕ → Completion
not_applied none = gone
not_applied (some version) = rejected

-- A failure that will be retried stays in the live table, marked failed.
abbrev pub mark_row : (matching : Job → Bool) → Status → Values → Option Attempt → Job → Job
mark_row matching status values opened job =
    if matching job
    then record job {
      status = status;
      version = job.version + 1;
      termination_reason = elim values.termination_reason [
        | none ↦ job.termination_reason
        | some reason ↦ reason
      ];
      finished_at = or_else values.finished_at job.finished_at;
      run = run_of opened job.run;
    }
    else job

abbrev pub update_rows : (Job → Job) → List Job → List Job
update_rows change [] = []
update_rows change (job ∷ jobs) = change job ∷ update_rows change jobs

abbrev pub of_version : ℕ → Option ℕ → Job → Bool
of_version j version job = (job.id == j) && matches version job.version

abbrev pub mark_pending : ℕ → Option ℕ → Status → Values → Option Attempt → Db → Completion
mark_pending j version status values opened db =
    if ltb 0 (length (select_where (of_version j version) db.live))
    then recorded (record db {
      live = update_rows (mark_row (of_version j version) status values opened) db.live;
    })
    else not_applied version

abbrev pub of_finish : Option ℕ → Finish → Completion
of_finish version unchanged = not_applied version
of_finish version row_count = broken
of_finish version (moved db) = recorded db

abbrev pub record_status :
    ℕ → Option ℕ → Status → Values → Option Attempt → (now : ℕ) → Db → Completion
record_status j version status values opened now db =
    if is_failed status && is_retry_pending values.termination_reason
    then mark_pending j version status values opened db
    else of_finish version
        (finish_in j status values (record no_fences { expected_version = version }) now db)

-- The attempt that the caller found open, whose columns (`row_columns`) the row takes over.
abbrev pub opened_attempt : ℕ → Db → Option Attempt
opened_attempt j db = last (select_where (is_open_for j) db.attempts)

-- `_fenced_update`, up to its commit.
unfoldable pub fenced_update :
    (job_id : ℕ) (version : Option ℕ) (status : Status) (values : Values)
    (attempt : Option AttemptHandle) (outcome : Outcome) (now : ℕ)
    → Db
    → Completion
fenced_update j version status values attempt outcome now db =
    elim (close_attempt j attempt outcome now db) [
      | none ↦ rejected
      | some closed ↦ record_status j version status values (opened_attempt j db) now closed
    ]

-- `mark_job_archived`: the retry exists, so the failed job is final.
abbrev pub settled_values : Job → Values
settled_values job = record {
  termination_reason = some (settled_reason job.termination_reason);
  finished_at = none;
}

abbrev pub status_fences : Job → Status → Fences
status_fences job status = record no_fences {
  created_at = some job.created_at;
  require_status = some (status ∷ []);
}

abbrev pub archive_row : Job → (now : ℕ) → Db → Completion
archive_row job now db =
    of_finish none (
      finish_in job.id Status.archived (settled_values job) (status_fences job Status.failed) now
        db)

unfoldable pub mark_job_archived : (job_id now : ℕ) → Db → Completion
mark_job_archived j now db =
    elim (select_where (λ job. (job.id == j) && is_failed job.status) db.live) [
      | [] ↦ gone
      | job ∷ rest ↦ archive_row job now db
    ]
