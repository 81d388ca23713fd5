-- ===== src/Backend/Claim.antt =====
-- fastapi_sqlery/backend.py: the claims. Deleting the ready entry is the claim's mutex, and the
-- attempt that it inserts is the running state.
use sqlery.Prelude.{ℕ, Bool, not, ◌&&◌, ◌||◌, Option, none, some, ltb, ◌==◌, if◌then◌else◌}
use sqlery.Attempts.{AttemptHandle}
use sqlery.Backend.{
  Job, Db, Claimer, Start, restore, keep, claimed, start_attempt, delete_ready, delete_blocked,
  ready_count, find_live, is_running,
}
use sqlery.Ready.{is_queued}

-- `none` is a claim that was not made.
abbrev pub Claimed : Type 0
Claimed = Option AttemptHandle × Db

-- What the caller of `_start_attempt` does with the entry that it deleted: `before` are the tables
-- of a rollback, `after` those with the entry deleted.
abbrev pub settle_start : (before after : Db) → Start → Claimed
settle_start before after restore = (none, before)
settle_start before after keep = (none, after)
settle_start before after (claimed handle db) = (some handle, db)

unfoldable pub atomic_claim_job : Claimer → Job → Db → Claimed
atomic_claim_job c job db =
    let after = delete_ready job.id db in
    if ready_count job.id db == 0
    then (none, db)
    else settle_start db after (start_attempt c job after)

-- Each way out of `claim_job_by_id` without an attempt leaves the tables as they were.
abbrev pub settle_by_id : (before : Db) → Start → Claimed
settle_by_id before (claimed handle db) = (some handle, db)
settle_by_id before _ = (none, before)

-- `entry_locked`: another claimer holds the job's entry.
unfoldable pub claim_job_by_id : Claimer → (entry_locked : Bool) → (job_id : ℕ) → Db → Claimed
claim_job_by_id c entry_locked j db =
    if entry_locked && ltb 0 (ready_count j db) then (none, db) else elim (find_live j db) [
      | none ↦ (none, db)
      | some job ↦
          if not (is_queued job.status) || is_running j db
          then (none, db)
          else settle_by_id db (start_attempt c job (delete_blocked j (delete_ready j db)))
    ]
