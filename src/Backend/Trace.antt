-- ===== src/Backend/Trace.antt =====
-- The transactions of fastapi_sqlery/backend.py by any process, in any order: the tables they reach. The
-- two that delete jobs (a cleanup, and a named job that replaces others) are not among them; Backend/Kept
-- adds those.
use sqlery.Prelude.{String, List, Text, ℕ, Bool, ◌≡◌, Option, [], ◌≤◌, arith}
use sqlery.Attempts.{count_where, Outcome, AttemptHandle}
use sqlery.Attempts.Close.{open_count}
use sqlery.Backend.{ReadyEntry, Text, Job, Db, Claimer}
use sqlery.Backend.Ancestors.{cascade_ancestor_status}
use sqlery.Backend.Claim.{atomic_claim_job, claim_job_by_id}
use sqlery.Backend.Complete
use sqlery.Backend.Complete.{fenced_update, mark_job_archived}
use sqlery.Backend.Effect.{Effects, one}
use sqlery.Backend.Finish.{Values}
use sqlery.Backend.Made.{claim_job_by_id-Effects, atomic_claim_job-Effects}
use sqlery.Backend.OneAttempt.{IsValid, IsValid-Effects}
use sqlery.Backend.Places.{places, rows_of}
use sqlery.Backend.Recorded.{mark_job_archived-Effects, fenced_update-Effects}
use sqlery.Backend.Recovery.{
  fail_zombie_job, release_job, release_claimed_job, abandon_attempts, settle_retry_pending,
  settle_stray,
}
use sqlery.Backend.Release.{
  create_job, write_ready, expire_queued_job, cancel_job, block_job, recheck_blocked,
}
use sqlery.Backend.Repairs.{repair-Effects}
use sqlery.Backend.Requeued.{
  recheck_blocked-Effects, block_job-Effects, cancel_job-Effects, expire_queued_job-Effects,
  write_ready-Effect, create_job-Effects,
}
use sqlery.Backend.Rounds.{turn}
use sqlery.Backend.Scan.{Limits}
use sqlery.Backend.Stopped.{
  settle_stray-Effects, settle_retry_pending-Effects, abandon_attempts-Effects,
  release_claimed_job-Effects, release_job-Effects, fail_zombie_job-Effects,
}
use sqlery.Backend.Sweep.{repair}
use sqlery.Backend.Turned.{after_turn, turn-Effects}
use sqlery.Backend.Walks.{cascade_ancestor_status-Effects}
use sqlery.Ready.{Status}

-- One transaction, with any arguments. A job that is created has an id that no job has.
pub data Step (s : Db) : Db → Type 0 where
  creates : (slot : ℕ) (job : Job) → places job.id s ≡ 0 → Step s (create_job slot job s)
  restores : (slot : ℕ) (job : Job) → Step s (write_ready slot job s)
  claims : (c : Claimer) (job : Job) → Step s (atomic_claim_job c job s).1
  claims_by_id :
      (c : Claimer) (entry_locked : Bool) (j : ℕ) → Step s (claim_job_by_id c entry_locked j s).1
  completes :
      (j : ℕ) (version : Option ℕ) (status : Status) (values : Values)
      (attempt : Option AttemptHandle) (outcome : Outcome) (now : ℕ)
      → Step s (Complete.after s (fenced_update j version status values attempt outcome now s))
  -- One round of the scan of `claim_job`.
  scans :
      (c : Claimer) (limits : Limits) (e : ReadyEntry) → Step s (after_turn s (turn c limits e s))
  archives : (j now : ℕ) → Step s (Complete.after s (mark_job_archived j now s))
  expires : (job : Job) (reason : Text) (now : ℕ) → Step s (expire_queued_job job reason now s).1
  cancels : (j now : ℕ) → Step s (cancel_job j now s).1
  blocks : (job : Job) → Step s (block_job job s).1
  rechecks : (slot j created_at now : ℕ) → Step s (recheck_blocked slot j created_at now s).1
  fails_zombie : (j now : ℕ) → Step s (fail_zombie_job j now s).1
  releases : (slot j now : ℕ) → Step s (release_job slot j now s)
  releases_claimed :
      (slot j created_at : ℕ) (status : Status) (values : Values) (now : ℕ)
      → Step s (release_claimed_job slot j created_at status values now s)
  abandons : (j now : ℕ) → Step s (abandon_attempts j now s).1
  settles_pending : (j now : ℕ) → Step s (settle_retry_pending j now s)
  settles : (job : Job) (now : ℕ) → Step s (settle_stray job now s)
  cascades :
      (fuel j : ℕ) (status : Status) (now : ℕ)
      → Step s (cascade_ancestor_status fuel j status now s)
  repairs :
      (slot : ℕ) (names : List String) (limit : ℕ) (locked : ReadyEntry → Bool)
      → Step s (repair slot names limit locked s)

pub data Reach (s : Db) : Db → Type 0 where
  start : Reach s s
  step : {t u : Db} → Reach s t → Step t u → Reach s u

pub Step-Effects : {s t : Db} → Step s t → Effects s t
Step-Effects {s} (creates slot job fresh) = create_job-Effects slot job s fresh
Step-Effects {s} (restores slot job) = one (write_ready-Effect slot job s)
Step-Effects {s} (claims c job) = atomic_claim_job-Effects c job s
Step-Effects {s} (claims_by_id c locked j) = claim_job_by_id-Effects c locked j s
Step-Effects {s} (completes j version status values attempt outcome now) =
    fenced_update-Effects j version status values attempt outcome now s
Step-Effects {s} (scans c limits e) = turn-Effects c limits e s
Step-Effects {s} (archives j now) = mark_job_archived-Effects j now s
Step-Effects {s} (expires job reason now) = expire_queued_job-Effects job reason now s
Step-Effects {s} (cancels j now) = cancel_job-Effects j now s
Step-Effects {s} (blocks job) = block_job-Effects job s
Step-Effects {s} (rechecks slot j created_at now) = recheck_blocked-Effects slot j created_at now s
Step-Effects {s} (fails_zombie j now) = fail_zombie_job-Effects j now s
Step-Effects {s} (releases slot j now) = release_job-Effects slot j now s
Step-Effects {s} (releases_claimed slot j created_at status values now) =
    release_claimed_job-Effects slot j created_at status values now s
Step-Effects {s} (abandons j now) = abandon_attempts-Effects j now s
Step-Effects {s} (settles_pending j now) = settle_retry_pending-Effects j now s
Step-Effects {s} (settles job now) = settle_stray-Effects job now s
Step-Effects {s} (cascades fuel j status now) = cascade_ancestor_status-Effects status now s fuel j
Step-Effects {s} (repairs slot names limit locked) = repair-Effects slot names limit locked s

pub IsValid-Reach : {s t : Db} → IsValid s → Reach s t → IsValid t
IsValid-Reach v start = v
IsValid-Reach v (step r x) = IsValid-Effects (IsValid-Reach v r) (Step-Effects x)

abbrev pub empty : Db
empty = record {
  live = [];
  history = [];
  ready = [];
  blocked = [];
  attempts = [];
  next_attempt = 0;
}

pub IsValid-empty : IsValid empty
unfolding rows_of count_where
IsValid-empty = record { one_place = λ j. omega arith; open_live = λ j. omega arith; numbered = tt }

-- From empty tables, in every sequence of transactions: every job stands at most once in the
-- live table and in history together, at most one of its attempts is open, and none is open once the
-- job is in history.
pub Reach-one :
    {t : Db}
    → Reach empty t
    → (j : ℕ)
    → (places j t ≤ 1)
      × (open_count j t.attempts ≤ 1)
      × (1 ≤ rows_of j t.history → open_count j t.attempts ≡ 0)
Reach-one {t} r j =
    let v = IsValid-Reach IsValid-empty r in
    (
      v.one_place j,
      omega (arith, v.one_place j, v.open_live j),
      λ finished. omega (arith, v.one_place j, v.open_live j),
    )
