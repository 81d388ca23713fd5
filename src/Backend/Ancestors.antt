-- ===== src/Backend/Ancestors.antt =====
-- cascade_ancestor_status of fastapi_sqlery/backend.py: a retry that succeeded settles the failed
-- attempts that it descends from.
use sqlery.Prelude.{
  ℕ, zero, suc, Bool, not, ◌&&◌, ◌||◌, Option, none, some, List, [], ◌∷◌, ◌==◌, if◌then◌else◌, mem,
}
use sqlery.Backend.{Job, Db, select_where, first}
use sqlery.Backend.Complete.{update_rows}
use sqlery.Backend.Finish.{
  Values, Fences, no_fences, Finish, unchanged, row_count, moved, finish_in, status_in,
}
use sqlery.Backend.Recovery.{is_terminal}
use sqlery.Backend.Release.{all_jobs}
use sqlery.Ready.{Status}

abbrev pub find_job : ℕ → List Job → Option Job
find_job j jobs = first (select_where (λ job. job.id == j) jobs)

-- The live rows that a status which is not terminal is written to.
abbrev pub is_overwritten : ℕ → ℕ → Job → Bool
is_overwritten j created_at job =
    (job.id == j)
    && (job.created_at == created_at)
    && not (status_in (Status.success ∷ Status.archived ∷ []) job.status)

abbrev pub overwrite : ℕ → ℕ → Status → Job → Job
overwrite j created_at status job =
    if is_overwritten j created_at job then record job { status = status } else job

abbrev pub no_values : Values
no_values = record { termination_reason = none; finished_at = none }

abbrev pub ancestor_fences : Job → Fences
ancestor_fences row = record no_fences {
  created_at = some row.created_at;
  require_status =
      some (Status.queued ∷ Status.running ∷ Status.failed ∷ Status.shutting_down ∷ []);
}

-- The statement for one ancestor; `row_count` is the RuntimeError of `_finish_in`.
abbrev pub settle_ancestor : Job → Status → (now : ℕ) → Db → Finish
settle_ancestor row status now db =
    if is_terminal status
    then finish_in row.id status no_values (ancestor_fences row) now db
    else moved (record db { live = update_rows (overwrite row.id row.created_at status) db.live })

pub data Cascade : Type 0 where
  settled : Db → Cascade
  broken : Cascade
  out_of_fuel : Cascade

-- The rest of the walk follows the parent that the row was read with.
abbrev pub walk_on : (Option ℕ → Db → Cascade) → Job → Db → Finish → Cascade
walk_on rest row db unchanged = rest row.parent_job_id db
walk_on rest row db row_count = broken
walk_on rest row db (moved db') = rest row.parent_job_id db'

abbrev pub walk_from : (Option ℕ → Db → Cascade) → Status → (now : ℕ) → Db → Option Job → Cascade
walk_from rest status now db none = settled db
walk_from rest status now db (some row) = walk_on rest row db (settle_ancestor row status now db)

-- The walk from an ancestor; `seen` are those before it.
unfoldable pub walk : (fuel : ℕ) (seen : List ℕ) → Option ℕ → Status → (now : ℕ) → Db → Cascade
walk fuel seen none status now db = settled db
walk zero seen (some j) status now db = out_of_fuel
walk (suc fuel) seen (some j) status now db =
    let rest =
      walk_from (λ next db'. walk fuel (j ∷ seen) next status now db') status now db
        (find_job j (all_jobs db)) in
    if (j == 0) || mem j seen then settled db else rest

abbrev pub parent_of : Option Job → Option ℕ
parent_of none = none
parent_of (some job) = job.parent_job_id

-- The whole walk is one transaction, which a RuntimeError rolls back.
abbrev pub after_walk : Db → Cascade → Db
after_walk db (settled db') = db'
after_walk db _ = db

unfoldable pub cascade_ancestor_status : (fuel j : ℕ) → Status → (now : ℕ) → Db → Db
unfolding walk
cascade_ancestor_status fuel j status now db =
    after_walk db (walk fuel [] (parent_of (find_job j (all_jobs db))) status now db)
