-- ===== src/Backend/Release.antt =====
-- fastapi_sqlery/backend.py and core/ready_sql.py: jobs that wait, return to the queue or are failed
-- while they wait.
use sqlery.Prelude.{
  mem, ℕ, Bool, true, false, not, ◌&&◌, ◌||◌, Option, none, some, List, [], ◌∷◌, ◌++◌, Text, codes,
  ltb, ◌==◌, if◌then◌else◌, map, is_empty,
}
use sqlery.Attempts.{is_open_for, derived_status}
use sqlery.Backend.{
  job_ids, mem, Job, ReadyEntry, BlockedRow, Db, select_where, first, delete_ready, delete_blocked,
  ready_count, is_running,
}
use sqlery.Backend.Finish.{Finish, unchanged, row_count, moved, finish_in}
use sqlery.Ready.{Status, is_queued, dependency_ids, Dependency, Lookup, State, judge_dependencies}
use sqlery.Retry

abbrev pub ready_values : (slot : ℕ) → Job → ReadyEntry
ready_values slot job = record {
  slot = slot;
  job_id = job.id;
  queue_name = job.queue_name;
  priority = job.priority;
  created_at = job.created_at;
  scheduled_at = job.scheduled_at;
}

abbrev pub has_entry_in : (slot j : ℕ) → List ReadyEntry → Bool
has_entry_in slot j [] = false
has_entry_in slot j (e ∷ es) = (e.slot == slot) && (e.job_id == j) || has_entry_in slot j es

-- `insert_ready_stmt`: an existing entry is left alone.
abbrev pub insert_ready : (slot : ℕ) → Job → Db → Db
insert_ready slot job db =
    if has_entry_in slot job.id db.ready
    then db
    else record db { ready = db.ready ++ ready_values slot job ∷ [] }

-- `write_ready` for one job that is not fresh: a running job gets no entry.
unfoldable pub write_ready : (slot : ℕ) → Job → Db → Db
write_ready slot job db = if is_running job.id db then db else insert_ready slot job db

-- `update_ready_stmt`
abbrev update_entry : Job → ReadyEntry → ReadyEntry
update_entry job e =
    if e.job_id == job.id
    then record e {
      queue_name = job.queue_name;
      priority = job.priority;
      scheduled_at = job.scheduled_at;
    }
    else e

-- `_ensure_entry` of a fresh job, as the session's hook calls it.
abbrev pub ensure_entry : (slot : ℕ) → Job → Db → Db
ensure_entry slot job db =
    let db' = insert_ready slot job db in record db' { ready = map (update_entry job) db'.ready }

abbrev pub queued_row : Job → Job
queued_row job = record job { status = Status.queued }

-- What `create_job` does first for a named job: the live rows with that name (`named`; a row has no name
-- here) are deleted, and the session's hook drops their entries.
unfoldable pub replace_named : (named : Job → Bool) → Db → Db
replace_named named db = record db {
  live = select_where (λ job. not (named job)) db.live;
  ready = select_where (λ e. not (mem e.job_id (job_ids (select_where named db.live)))) db.ready;
  blocked =
      select_where (λ b. not (mem b.job_id (job_ids (select_where named db.live)))) db.blocked;
}

-- `create_job`, where it inserts into the live table: a new queued row and its entry.
unfoldable pub create_job : (slot : ℕ) → Job → Db → Db
create_job slot job db =
    ensure_entry slot (queued_row job) (record db { live = db.live ++ queued_row job ∷ [] })

-- `_fail_queued`: the entries go first, then the job, if it still waits.
unfoldable pub fail_queued : (job : Job) → (reason : Text) → (now : ℕ) → Db → Finish
fail_queued job reason now db =
    finish_in job.id Status.failed
      (record { termination_reason = some reason; finished_at = some now })
      (record {
        created_at = some job.created_at;
        expected_version = none;
        require_status = some (Status.queued ∷ []);
        require_idle = true;
      })
      now (delete_blocked job.id (delete_ready job.id db))

-- Commit if the job was moved; roll back if not, or on an exception, for which `false` stands too.
abbrev pub moved_or : Db → Finish → Bool × Db
moved_or before (moved db) = (true, db)
moved_or before _ = (false, before)

unfoldable pub expire_queued_job : Job → (reason : Text) → (now : ℕ) → Db → Bool × Db
expire_queued_job job reason now db = moved_or db (fail_queued job reason now db)

-- `cancel_job` on a database without staged jobs.
abbrev pub cancel_row : Job → (now : ℕ) → Db → Bool × Db
cancel_row job now db = moved_or db (
    finish_in job.id Status.failed (record { termination_reason = none; finished_at = none })
      (record {
        created_at = some job.created_at;
        expected_version = none;
        require_status = some (Status.queued ∷ []);
        require_idle = true;
      })
      now (delete_blocked job.id (delete_ready job.id db)))

unfoldable pub cancel_job : (job_id now : ℕ) → Db → Bool × Db
cancel_job j now db =
    elim (first (
      select_where (λ job. (job.id == j) && is_queued job.status && not (is_running j db))
        db.live)) [ none ↦ (false, db) | some job ↦ cancel_row job now db ]

abbrev has_blocked : (j dep : ℕ) → List BlockedRow → Bool
has_blocked j dep [] = false
has_blocked j dep (b ∷ bs) = (b.job_id == j) && (b.dependency_id == dep) || has_blocked j dep bs

-- `insert_blocked_stmt`: one row per dependency, an existing one is left alone.
abbrev pub insert_blocked : Job → List ℕ → List BlockedRow → List BlockedRow
insert_blocked job [] rows = rows
insert_blocked job (dep ∷ deps) rows = insert_blocked job deps (
    if has_blocked job.id dep rows
    then rows
    else rows ++ record { job_id = job.id; dependency_id = dep; created_at = job.created_at } ∷ [])

-- `block_job`, up to its commit.
unfoldable pub block_job : Job → Db → Bool × Db
block_job job db =
    let deps = dependency_ids job.dependencies in
    let without = delete_ready job.id db in
    if is_empty deps || (ready_count job.id db == 0)
    then (false, db)
    else (true, record without { blocked = insert_blocked job deps db.blocked })

-- `sqlery_job_all`: live rows, those that run with the columns of their open attempt, then history.
abbrev pub shown : Db → Job → Job
shown db job = elim (first (select_where (is_open_for job.id) db.attempts)) [
  | none ↦ job
  | some a ↦
      if is_queued job.status
      then record job {
        status = derived_status job.status true;
        run = record {
          started_at = some a.claimed_at;
          worker_id = a.worker_id;
          worker_pid = some a.worker_pid;
          child_pid = a.child_pid;
        };
      }
      else job
]

abbrev pub all_jobs : Db → List Job
all_jobs db = map (shown db) db.live ++ db.history

abbrev pub as_dependency : Job → Dependency
as_dependency job = record {
  id = job.id;
  status = job.status;
  termination_reason = job.termination_reason;
}

abbrev pub find_anywhere : ℕ → List Job → Option Dependency
find_anywhere j [] = none
find_anywhere j (job ∷ jobs) =
    if job.id == j then some (as_dependency job) else find_anywhere j jobs

abbrev newer : Job → Job → Bool
newer a b = ltb b.created_at a.created_at || (a.created_at == b.created_at) && ltb b.id a.id

-- `ORDER BY created_at DESC, id DESC LIMIT 1` over the retry children.
abbrev pub is_child_of : ℕ → Job → Bool
is_child_of j job = elim job.parent_job_id [ none ↦ false | some p ↦ p == j ]

abbrev pub beats : Job → Option Job → Bool
beats job none = true
beats job (some best) = newer job best

abbrev pub newest_child : (best : Option Job) → ℕ → List Job → Option Job
newest_child best j [] = best
newest_child best j (job ∷ jobs) =
    newest_child (if is_child_of j job && beats job best then some job else best) j jobs

-- `_judge_dependencies`
abbrev pub lookup_in : Db → Lookup
lookup_in db = record {
  fetch = λ j. find_anywhere j (all_jobs db);
  latest_retry = λ j. elim (newest_child none j (all_jobs db)) [
    | none ↦ none
    | some job ↦ some (as_dependency job)
  ];
  is_retry_pending = λ reason. Retry.is_retry_pending (some reason);
}

pub data Recheck : Type 0 where
  ready failed blocked gone : Recheck
  -- `RuntimeError` of `_finish_in`.
  broken : Recheck

abbrev pub apply_verdict : (slot : ℕ) → Job → (now : ℕ) → State → Db → Recheck × Db
apply_verdict slot job now State.pending db = (blocked, db)
apply_verdict slot job now State.failed db =
    elim (fail_queued job (codes "dependency_failed") now db) [
      | moved db' ↦ (failed, db')
      | unchanged ↦ (failed, delete_blocked job.id (delete_ready job.id db))
      | row_count ↦ (broken, db)
    ]
apply_verdict slot job now State.met db = (ready, write_ready slot job (delete_blocked job.id db))

-- `_recheck_blocked`
unfoldable pub recheck_blocked : (slot job_id created_at now : ℕ) → Db → Recheck × Db
recheck_blocked slot j created_at now db =
    elim (first (select_where (λ job. (job.id == j) && (job.created_at == created_at)) db.live)) [
      | none ↦ (gone, delete_blocked j db)
      | some job ↦
          if not (is_queued job.status) || is_running j db
          then (gone, delete_blocked j db)
          else apply_verdict slot job now
              (judge_dependencies (lookup_in db) (dependency_ids job.dependencies)).state db
    ]
