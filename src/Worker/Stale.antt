-- ===== src/Worker/Stale.antt =====
-- cleanup_stale_jobs of src/sqlery/core/worker.py: a round, for one job that was read as running.
use sqlery.Prelude.{ℕ, ◌-◌, ◌*◌, Option, none, some, [], ltb, if◌then◌else◌}
use sqlery.Backend.{Job, Db, find_live}
use sqlery.Backend.Ancestors.{find_job}
use sqlery.Backend.Complete
use sqlery.Retry.{JobSpec}
use sqlery.Worker.{Settings, should_retry, mark_job_failed, mark_failed}
use sqlery.Worker.Child.{Given, found, retry_job}

-- Twice the timeout of the job, or an hour where it has none.
abbrev pub threshold : Option ℕ → ℕ
threshold none = 3600
threshold (some seconds) = if ltb 0 seconds then seconds * 2 else 3600

-- The row is read again after the write, and the decision to retry looks at its retry columns only.
abbrev pub retry_stale : Settings → Given → JobSpec → Db → Option Job → Db
retry_stale set g spec db none = db
retry_stale set g spec db (some row) =
    if should_retry set spec none then retry_job set g spec none none row db else db

-- The job that was read: its id, when it started, and its timeout. The writes carry no fence.
unfoldable pub cleanup_stale_job :
    Settings → Given → JobSpec → (j : ℕ) → (started_at timeout : Option ℕ) → Db → Db
cleanup_stale_job set g spec j none timeout db =
    Complete.after db (mark_job_failed j none [] none g.now db)
cleanup_stale_job set g spec j (some started) timeout db =
    let failed =
      Complete.after db (mark_failed j none (should_retry set spec none) none g.now db) in
    if ltb (threshold timeout) (g.now - started)
    then retry_stale set g spec failed (found (find_live j failed) (find_job j failed.history))
    else db
