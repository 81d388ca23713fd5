-- ===== src/Backend/Finish.antt =====
-- fastapi_sqlery/history_sql.py and _finish_in of fastapi_sqlery/backend.py: the terminal transition
-- moves one live job into history.
use sqlery.Prelude.{
  ℕ, ◌+◌, Bool, true, false, not, ◌&&◌, ◌||◌, Option, none, some, List, [], ◌∷◌, ◌++◌, Text, ◌==◌,
}
use sqlery.Attempts
use sqlery.Attempts.{Attempt, Outcome}
use sqlery.Backend.{Run, Job, Db, select_where, is_running}
use sqlery.Ready.{Status}

-- `_where`: the fences that a caller of `_finish_in` asks for.
pub record Fences : Type 0 where
  pub created_at : Option ℕ
  pub expected_version : Option ℕ
  -- A status, or several of them.
  pub require_status : Option (List Status)
  pub require_idle : Bool

abbrev pub no_fences : Fences
no_fences = record {
  created_at = none;
  expected_version = none;
  require_status = none;
  require_idle = false;
}

abbrev pub matches : Option ℕ → ℕ → Bool
matches none n = true
matches (some m) n = n == m

abbrev pub status_code : Status → ℕ
status_code Status.queued = 0
status_code Status.running = 1
status_code Status.shutting_down = 2
status_code Status.success = 3
status_code Status.failed = 4
status_code Status.archived = 5

abbrev pub status_in : List Status → Status → Bool
status_in [] s = false
status_in (t ∷ ts) s = (status_code s == status_code t) || status_in ts s

abbrev pub status_matches : Option (List Status) → Status → Bool
status_matches none s = true
status_matches (some ts) s = status_in ts s

abbrev pub fences_hold : Db → ℕ → Fences → Job → Bool
fences_hold db j f job =
    (job.id == j)
    && (not f.require_idle || not (is_running job.id db))
    && matches f.created_at job.created_at
    && matches f.expected_version job.version
    && status_matches f.require_status job.status

-- The columns that a transition sets beside the status.
pub record Values : Type 0 where
  pub termination_reason : Option Text
  pub finished_at : Option ℕ

abbrev pub last {ℓ} : {A : Type ℓ} → List A → Option A
last [] = none
last (a ∷ []) = some a
last (a ∷ b ∷ rest) = last (b ∷ rest)

-- The newest attempt of a job: the last of its rows, since ids grow.
abbrev pub newest_attempt : ℕ → List Attempt → Option Attempt
newest_attempt j attempts = last (select_where (λ a. a.job_id == j) attempts)

-- `coalesce`
abbrev pub or_else {ℓ} : {A : Type ℓ} → Option A → Option A → Option A
or_else none b = b
or_else (some a) b = some a

abbrev pub run_of : Option Attempt → Run → Run
run_of none r = r
run_of (some a) r = record {
  started_at = some a.claimed_at;
  worker_id = or_else a.worker_id r.worker_id;
  worker_pid = some a.worker_pid;
  child_pid = or_else a.child_pid r.child_pid;
}

-- The row that enters history.
abbrev pub history_row : Db → Status → Values → (now : ℕ) → Job → Job
history_row db status values now job = record job {
  status = status;
  version = job.version + 1;
  termination_reason = elim values.termination_reason [
    | none ↦ job.termination_reason
    | some reason ↦ reason
  ];
  finished_at = or_else values.finished_at (or_else job.finished_at (some now));
  run = run_of (newest_attempt job.id db.attempts) job.run;
}

abbrev pub straggler_outcome : Status → Outcome
straggler_outcome Status.success = Outcome.success
straggler_outcome _ = Outcome.abandoned

pub data Finish : Type 0 where
  -- The fences do not hold: nothing is changed.
  unchanged : Finish
  -- More than one row moved: `RuntimeError`.
  row_count : Finish
  moved : Db → Finish

abbrev pub move_job : Db → ℕ → Fences → Status → Values → (now : ℕ) → Job → Db
move_job db j f status values now job = record db {
  history = db.history ++ history_row db status values now job ∷ [];
  live = select_where (λ job'. not (fences_hold db j f job')) db.live;
  attempts =
      Attempts.update_where (Attempts.is_open_for j)
        (Attempts.closed now (straggler_outcome status)) db.attempts;
}

abbrev pub finish_rows : Db → ℕ → Fences → Status → Values → (now : ℕ) → List Job → Finish
finish_rows db j f status values now [] = unchanged
finish_rows db j f status values now (job ∷ []) = moved (move_job db j f status values now job)
finish_rows db j f status values now (job ∷ other ∷ rest) = row_count

unfoldable pub finish_in : (job_id : ℕ) → Status → Values → Fences → (now : ℕ) → Db → Finish
finish_in j status values f now db =
    finish_rows db j f status values now (select_where (fences_hold db j f) db.live)
