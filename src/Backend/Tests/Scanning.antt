-- ===== src/Backend/Tests/Scanning.antt =====
-- The scan at small tables: job 1 waits on job 9, which does not exist; job 2 is free.
use sqlery.Prelude.{
  ◌≢◌, str_eq, if◌then◌else◌, ℕ, ◌≡◌, refl, none, some, true, false, [], ◌∷◌, arith,
}
use sqlery.Backend.{Status, Job, ReadyEntry, Db}
use sqlery.Backend.Ancestors.{walk, parent_of, find_job, out_of_fuel}
use sqlery.Backend.Dependents.{release_dependents}
use sqlery.Backend.Ends.{is_ended, ReachedBy, claim_from_ready-is_ended}
use sqlery.Backend.Order.{IsNext, next_entry-IsFirst}
use sqlery.Backend.Release.{all_jobs}
use sqlery.Backend.Releases.{LeavesReached, release_dependents-is_finished, is_finished}
use sqlery.Backend.Rounds.{claim_from_ready}
use sqlery.Backend.Scan.{Limits, next_entry, is_eligible}
use sqlery.Backend.Tests.{job, claimer}
use sqlery.Backend.Trace.{empty}
use sqlery.Backend.WalkEnds.{walk-ne-out_of_fuel}
use sqlery.Ready.{Status}

abbrev entry : ℕ → ℕ → ReadyEntry
entry i p = record {
  slot = 0;
  job_id = i;
  queue_name = "default";
  priority = p;
  created_at = 10;
  scheduled_at = none;
}

abbrev waiting : Job
waiting = record (job 1) { dependencies = some 9 ∷ [] }

abbrev tagged : Job
tagged = record (job 2) { tags = "mail" ∷ [] }

abbrev tables : Db
tables = record empty { live = waiting ∷ tagged ∷ []; ready = entry 2 0 ∷ entry 1 5 ∷ [] }

abbrev one_mail : Limits
one_mail = record {
  conc = λ tag. if str_eq tag "mail" then some 1 else none;
  rate = λ tag. none;
  lock_free = λ tag. true;
}

claim_from_ready-is_ended_example :
    (is_ended (claim_from_ready (claimer 5) one_mail ("default" ∷ []) (λ j. false) 3 tables) ≡ true)
    × ReachedBy tables
        (claim_from_ready (claimer 5) one_mail ("default" ∷ []) (λ j. false) 3 tables)
claim_from_ready-is_ended_example =
    claim_from_ready-is_ended (claimer 5) one_mail ("default" ∷ []) (λ j. false) 3 tables
      (omega arith)

-- The job of the higher priority is examined first, though it stands later.
first_entry :
    next_entry (is_eligible ("default" ∷ []) 20 (λ j. false) none) tables.ready ≡ some (entry 1 5)
unfolding next_entry
first_entry = refl

-- Job 1 finished, and jobs 2 and 3 wait for it.
abbrev chain : Db
chain = record empty {
  live =
      record (job 2) { dependencies = some 1 ∷ [] }
      ∷ record (job 3) { dependencies = some 2 ∷ [] }
      ∷ [];
  history = record (job 1) { status = Status.failed } ∷ [];
  blocked =
      record { job_id = 2; dependency_id = 1; created_at = 10 }
      ∷ record { job_id = 3; dependency_id = 2; created_at = 10 }
      ∷ [];
}

release_dependents-is_finished_example :
    (is_finished (release_dependents 0 50 4 1 none chain) ≡ true)
    × LeavesReached chain (release_dependents 0 50 4 1 none chain)
release_dependents-is_finished_example =
    release_dependents-is_finished 0 50 4 1 none chain (omega arith)

-- A parent that is its own ancestor: jobs 1 and 2 name each other.
abbrev cyclic : Db
cyclic = record empty {
  live = record (job 1) { parent_job_id = some 2 } ∷ record (job 2) { parent_job_id = some 1 } ∷ [];
}

walk-ne-out_of_fuel_example :
    walk 3 [] (parent_of (find_job 1 (all_jobs cyclic))) Status.failed 30 cyclic ≢ out_of_fuel
walk-ne-out_of_fuel_example = walk-ne-out_of_fuel Status.failed 30 3 1 cyclic (omega arith)

next_entry-IsFirst_example :
    IsNext
      (is_eligible ("default" ∷ []) 20 (λ j. false) none)
      tables.ready
      (next_entry (is_eligible ("default" ∷ []) 20 (λ j. false) none) tables.ready)
next_entry-IsFirst_example = next_entry-IsFirst ("default" ∷ []) 20 (λ j. false) none tables.ready
