-- ===== src/Backend/Tests/Cleanups.antt =====
-- History before second 50 is cleaned up.
use sqlery.Prelude.{ℕ, ◌≡◌, none, some, [], ◌∷◌, arith, refl}
use sqlery.Backend.{Job, Db}
use sqlery.Backend.Cleaned.{IsDone, cleanup_jobs-IsDone}
use sqlery.Backend.Cleanup.{
  Policy, matches_policy, cleanup_jobs, cleaned, delete_history_batch, sort_rows,
}
use sqlery.Backend.Tests.{job}
use sqlery.Backend.Trace.{empty}
use sqlery.Ready.{Status}

abbrev ended : (i at : ℕ) → Job
ended i at = record (job i) { status = Status.success; finished_at = some at }

abbrev finished : Db
finished = record empty { live = job 4 ∷ []; history = ended 1 60 ∷ ended 2 40 ∷ ended 3 30 ∷ [] }

abbrev old : Policy
old = record { status = none; queue_name = none; cutoff = some 50 }

cleanup_finished :
    cleanup_jobs 4 old finished ≡ cleaned 2 (record finished { history = ended 1 60 ∷ [] })
unfolding cleanup_jobs delete_history_batch sort_rows
cleanup_finished = refl

cleanup_jobs-IsDone_example : IsDone (matches_policy old) 0 finished (cleanup_jobs 4 old finished)
unfolding matches_policy
cleanup_jobs-IsDone_example = cleanup_jobs-IsDone 4 old finished (omega arith)
