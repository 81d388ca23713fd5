-- ===== src/Attempts.antt =====
-- core/attempts.py and fastapi_sqlery/attempt_sql.py: one row per claim of a job, closed by exactly
-- the completion that presents its id and token. A token is a number that stands for the uuid.
pub mod Close
use sqlery.Prelude.{
  ℕ, zero, suc, ◌+◌, Bool, true, false, not, ◌&&◌, ◌||◌, Option, none, some, List, [], ◌∷◌, ◌++◌,
  ◌==◌, if◌then◌else◌, is_empty,
}
use sqlery.Ready.{Status, is_queued, running}
use sqlery.Retry.{or_zero}

pub data Outcome : Type 0 where
  success failed abandoned : Outcome

pub record Attempt : Type 0 where
  pub id : ℕ
  pub job_id : ℕ
  pub token : ℕ
  pub worker_id : Option ℕ
  pub worker_pid : ℕ
  pub child_pid : Option ℕ
  pub claimed_at : ℕ
  pub finished_at : Option ℕ
  pub outcome : Option Outcome

pub record AttemptHandle : Type 0 where
  pub id : ℕ
  pub token : ℕ
  pub job_id : ℕ
  pub claimed_at : ℕ
  pub worker_id : Option ℕ
  pub worker_pid : ℕ

-- The status that readers see.
unfoldable pub derived_status : (stored : Status) (has_open_attempt : Bool) → Status
derived_status stored has_open_attempt =
    if has_open_attempt && is_queued stored then running else stored

pub data Verdict : Type 0 where
  ok stale : Verdict

unfoldable pub claim_verdict :
    (stored : Status) (version : Option ℕ) (expected_version : Option ℕ) (has_open_attempt : Bool)
    → Verdict
claim_verdict stored version expected_version has_open_attempt =
    if not (is_queued stored)
    then stale
    else if has_open_attempt
    then stale
    else elim expected_version [
      | none ↦ ok
      | some expected ↦ if or_zero version == expected then ok else stale
    ]

abbrev pub is_open : Attempt → Bool
is_open a = elim a.finished_at [ none ↦ true | some t ↦ false ]

-- `EXISTS`: an attempt is open for the job.
unfoldable pub open_attempt_exists : ℕ → List Attempt → Bool
open_attempt_exists j [] = false
open_attempt_exists j (a ∷ as_) = (a.job_id == j) && is_open a || open_attempt_exists j as_

-- `UPDATE … WHERE test SET change`, and its row count.
unfoldable pub update_where : (Attempt → Bool) → (Attempt → Attempt) → List Attempt → List Attempt
update_where test change [] = []
update_where test change (a ∷ as_) = (if test a then change a else a) ∷ update_where test change as_

unfoldable pub count_where : (Attempt → Bool) → List Attempt → ℕ
count_where test [] = 0
count_where test (a ∷ as_) = if test a then suc (count_where test as_) else count_where test as_

abbrev pub closed : (now : ℕ) → Outcome → Attempt → Attempt
closed now outcome a = record a { finished_at = some now; outcome = some outcome }

-- The `WHERE` clauses: of a fenced close, and of one by a caller without a handle.
abbrev pub is_exact : AttemptHandle → Attempt → Bool
is_exact h a = (a.id == h.id) && (a.token == h.token) && is_open a

abbrev pub is_open_for : ℕ → Attempt → Bool
is_open_for j a = (a.job_id == j) && is_open a

abbrev pub close_exact : AttemptHandle → Outcome → (now : ℕ) → List Attempt → List Attempt
close_exact h outcome now = update_where (is_exact h) (closed now outcome)

-- A success stays a success; anything else means that the attempt was abandoned.
abbrev pub unfenced_outcome : Outcome → Outcome
unfenced_outcome success = success
unfenced_outcome _ = abandoned

abbrev pub close_unfenced : ℕ → Outcome → (now : ℕ) → List Attempt → List Attempt
close_unfenced j outcome now = update_where (is_open_for j) (closed now (unfenced_outcome outcome))

abbrev pub abandon_open : ℕ → (now : ℕ) → List Attempt → List Attempt
abandon_open j now = update_where (is_open_for j) (closed now abandoned)

-- `decide_close`: the completion is accepted if the row count is one.
abbrev pub decide_close : (rowcount : ℕ) → Bool
decide_close rowcount = rowcount == 1

-- The row that a claim inserts.
unfoldable pub new_attempt :
    (id job_id token : ℕ) (worker_id : Option ℕ) (worker_pid now : ℕ) → Attempt
new_attempt id job_id token worker_id worker_pid now = record {
  id = id;
  job_id = job_id;
  token = token;
  worker_id = worker_id;
  worker_pid = worker_pid;
  child_pid = none;
  claimed_at = now;
  finished_at = none;
  outcome = none;
}
