-- ===== src/Backend/Stopped.antt =====
-- Each transaction of Backend/Recovery is a chain of the changes of Backend/Effect.
use sqlery.Prelude.{
  arith, ◌==◌, ◌≡◌, if◌then◌else◌, ℕ, Bool, false, Option, none, some, List, [], ◌∷◌, refl,
  Bool-cases, inl, inr, not, ◌||◌, ltb,
}
use sqlery.Backend.{Outcome, Job, Db}
use sqlery.Backend.Effect.{mark, Effects, done, one, after}
use sqlery.Backend.Finish.{status_code, Values}
use sqlery.Backend.Places.{rows_of}
use sqlery.Backend.Recovery
use sqlery.Backend.Recovery.{
  is_terminal, with_closed, release_outcome, set_rows, release_row, fail_row, write_status,
  abandon_attempts, settle_retry_pending, settle_stray, closable, fail_zombie_job, release_job,
  release_claimed_job, settle_row,
}
use sqlery.Backend.Release.{write_ready}
use sqlery.Backend.Requeued.{
  keep_or-Effects, with_closed-Effect, moved_or-Effects, committed-Effects, write_ready-Effect,
}
use sqlery.Ready.{Status, is_queued}

abbrev fail_found : ℕ → Db → Option Job → Bool × Db
fail_found now s none = (false, s)
fail_found now s (some job) =
    if not (is_queued job.status) || ltb (closable job.id s) 1
    then (false, s)
    else fail_row job now s

fail_found-Effects : (now : ℕ) (s : Db) (row : Option Job) → Effects s (fail_found now s row).1
fail_found-Effects now s none = done
fail_found-Effects now s (some job) =
    elim (Bool-cases (not (is_queued job.status) || ltb (closable job.id s) 1)) [
      | inl y ↦ rw y done
      | inr n ↦ rw n (
          moved_or-Effects s _ (one (with_closed-Effect job.id Outcome.abandoned now s)) job.id
            Status.failed _ _ now _ refl)
    ]

pub fail_zombie_job-Effects : (j now : ℕ) (s : Db) → Effects s (fail_zombie_job j now s).1
unfolding fail_zombie_job
fail_zombie_job-Effects j now s = fail_found-Effects now s _

abbrev release_found : ℕ → ℕ → Db → Option Job → Db
release_found slot now s none = s
release_found slot now s (some job) =
    if not (is_queued job.status) || ltb (closable job.id s) 1
    then s
    else write_ready slot job (with_closed job.id Outcome.abandoned now s)

release_found-Effects :
    (slot now : ℕ) (s : Db) (row : Option Job) → Effects s (release_found slot now s row)
release_found-Effects slot now s none = done
release_found-Effects slot now s (some job) =
    elim (Bool-cases (not (is_queued job.status) || ltb (closable job.id s) 1)) [
      | inl y ↦ rw y done
      | inr n ↦ rw n (
          after (one (with_closed-Effect job.id Outcome.abandoned now s))
            (write_ready-Effect slot job _))
    ]

pub release_job-Effects : (slot j now : ℕ) (s : Db) → Effects s (release_job slot j now s)
unfolding release_job
release_job-Effects slot j now s = release_found-Effects slot now s _

rows_of-set_rows :
    (job : Job) (status : Status) (values : Values) (k : ℕ) (xs : List Job)
    → rows_of k (set_rows job status values xs) ≡ rows_of k xs
unfolding rows_of
rows_of-set_rows job status values k [] = refl
rows_of-set_rows job status values k (x ∷ xs) =
    ground (arith, rows_of-set_rows job status values k xs)

write_status-Effects :
    (job : Job) (status : Status) (values : Values) (s : Db)
    → Effects s (write_status job status values s)
write_status-Effects job status values s =
    elim (Bool-cases (status_code job.status == status_code status)) [
      | inl y ↦ rw y (one (mark (λ k. rows_of-set_rows job status values k s.live) refl refl refl))
      | inr n ↦ rw n (one (mark (λ k. rows_of-set_rows job status values k s.live) refl refl refl))
    ]

append-Effects : {s t u : Db} → Effects s t → Effects t u → Effects s u
append-Effects es done = es
append-Effects es (after fs f) = after (append-Effects es fs) f

release_row-Effects :
    (slot : ℕ) (job : Job) (status : Status) (values : Values) (now : ℕ) (s : Db)
    → Effects s (release_row slot job status values now s)
release_row-Effects slot job status values now s =
    let closed = one (with_closed-Effect job.id (release_outcome status) now s) in
    elim (Bool-cases (is_terminal status)) [
      | inl y ↦ rw y (keep_or-Effects s _ closed job.id status _ _ now _ refl)
      | inr n ↦ elim (Bool-cases (is_queued status)) [
        | inl q ↦ rw (n, q) (after closed (write_ready-Effect slot job _))
        | inr r ↦
            rw (n, r)
              (append-Effects closed
                (write_status-Effects job status (Recovery.defaults values now) _))
      ]
    ]

abbrev claimed_found : ℕ → Status → Values → ℕ → Db → Option Job → Db
claimed_found slot status values now s none = s
claimed_found slot status values now s (some job) = release_row slot job status values now s

claimed_found-Effects :
    (slot : ℕ) (status : Status) (values : Values) (now : ℕ) (s : Db) (row : Option Job)
    → Effects s (claimed_found slot status values now s row)
claimed_found-Effects slot status values now s none = done
claimed_found-Effects slot status values now s (some job) =
    release_row-Effects slot job status values now s

pub release_claimed_job-Effects :
    (slot j created_at : ℕ) (status : Status) (values : Values) (now : ℕ) (s : Db)
    → Effects s (release_claimed_job slot j created_at status values now s)
unfolding release_claimed_job
release_claimed_job-Effects slot j created_at status values now s =
    claimed_found-Effects slot status values now s _

pub abandon_attempts-Effects : (j now : ℕ) (s : Db) → Effects s (abandon_attempts j now s).1
unfolding abandon_attempts
abandon_attempts-Effects j now s = one (with_closed-Effect j Outcome.abandoned now s)

settle_row-Effects :
    (job : Job) (status : Status) (now : ℕ) (s : Db) → Effects s (settle_row job status now s)
settle_row-Effects job status now s = committed-Effects s job.id status _ _ now _ refl

abbrev settle_found : ℕ → Db → Option Job → Db
settle_found now s none = s
settle_found now s (some job) = settle_row job Status.failed now s

settle_found-Effects : (now : ℕ) (s : Db) (row : Option Job) → Effects s (settle_found now s row)
settle_found-Effects now s none = done
settle_found-Effects now s (some job) = settle_row-Effects job Status.failed now s

pub settle_retry_pending-Effects : (j now : ℕ) (s : Db) → Effects s (settle_retry_pending j now s)
unfolding settle_retry_pending
settle_retry_pending-Effects j now s = settle_found-Effects now s _

abbrev settle_as : Job → ℕ → Db → Option Status → Db
settle_as job now s none = s
settle_as job now s (some status) = settle_row job status now s

settle_as-Effects :
    (job : Job) (now : ℕ) (s : Db) (status : Option Status) → Effects s (settle_as job now s status)
settle_as-Effects job now s none = done
settle_as-Effects job now s (some status) = settle_row-Effects job status now s

pub settle_stray-Effects : (job : Job) (now : ℕ) (s : Db) → Effects s (settle_stray job now s)
unfolding settle_stray
settle_stray-Effects job now s = settle_as-Effects job now s _
