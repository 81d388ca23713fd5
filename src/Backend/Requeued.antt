-- ===== src/Backend/Requeued.antt =====
-- Each transaction that takes a job back, stops it or settles it is a chain of the changes of
-- Backend/Effect.
use sqlery.Prelude.{
  ◌==◌, if◌then◌else◌, codes, Text, is_empty, ◌++◌, ℕ, ◌≡◌, Bool, false, Option, none, some, [],
  ◌∷◌, refl, Bool-cases, not, ◌||◌, inl, inr,
}
use sqlery.Attempts.{unfenced_outcome, is_open_for, Outcome}
use sqlery.Backend.{
  ready_count, dependency_ids, Text, Job, Db, delete_ready, delete_blocked, is_running,
}
use sqlery.Backend.Effect.{Effect, Effects, entries, close, add, done, after, one}
use sqlery.Backend.Finish.{Values, Fences, Finish, unchanged, row_count, moved, finish_in}
use sqlery.Backend.Places.{places}
use sqlery.Backend.Recorded.{finish_in-Effect}
use sqlery.Backend.Recovery.{with_closed, keep_or, committed}
use sqlery.Backend.Release.{
  queued_row, insert_ready, has_entry_in, Recheck, write_ready, create_job, moved_or, fail_queued,
  expire_queued_job, cancel_row, cancel_job, block_job, apply_verdict, recheck_blocked, lookup_in,
}
use sqlery.Ready.{judge_dependencies, dependency_ids, Status, is_queued, State}

pub entries_refl : (s : Db) → Effect s s
entries_refl s = entries refl refl refl refl

insert_ready-Effect : (slot : ℕ) (job : Job) (s : Db) → Effect s (insert_ready slot job s)
insert_ready-Effect slot job s = elim (Bool-cases (has_entry_in slot job.id s.ready)) [
  | inl y ↦ rw y (entries_refl s)
  | inr n ↦ rw n (entries refl refl refl refl)
]

pub write_ready-Effect : (slot : ℕ) (job : Job) (s : Db) → Effect s (write_ready slot job s)
unfolding write_ready
write_ready-Effect slot job s = elim (Bool-cases (is_running job.id s)) [
  | inl y ↦ rw y (entries_refl s)
  | inr n ↦ rw n (insert_ready-Effect slot job s)
]

pub create_job-Effects :
    (slot : ℕ) (job : Job) (s : Db) → places job.id s ≡ 0 → Effects s (create_job slot job s)
unfolding create_job
create_job-Effects slot job s fresh =
    let added : Db = record s { live = s.live ++ queued_row job ∷ [] } in
    after
      (after (one (add (queued_row job) fresh refl refl refl refl))
        (insert_ready-Effect slot (queued_row job) added))
      (entries refl refl refl refl)

pub with_closed-Effect : (j : ℕ) (o : Outcome) (now : ℕ) (s : Db) → Effect s (with_closed j o now s)
with_closed-Effect j o now s = close refl refl (record {
  test = is_open_for j;
  now = now;
  outcome = unfenced_outcome o;
  attempts_closed = refl;
  next_same = refl;
})

-- A move on tables that were reached, and what its caller does with each of its results.
module _ (before s : Db) (e : Effects before s) where
  module _ (j : ℕ) (status : Status) (values : Values) (f : Fences) (now : ℕ) where
    pub moved_or-Effects :
        (out : Finish)
        → finish_in j status values f now s ≡ out
        → Effects before (moved_or before out).1
    moved_or-Effects unchanged h = done
    moved_or-Effects row_count h = done
    moved_or-Effects (moved t) h = after e (finish_in-Effect j status values f now s t h)

    pub keep_or-Effects :
        (out : Finish)
        → finish_in j status values f now s ≡ out
        → Effects before (keep_or before s out)
    keep_or-Effects unchanged h = e
    keep_or-Effects row_count h = done
    keep_or-Effects (moved t) h = after e (finish_in-Effect j status values f now s t h)

pub committed-Effects :
    (s : Db) (j : ℕ) (status : Status) (values : Values) (f : Fences) (now : ℕ) (out : Finish)
    → finish_in j status values f now s ≡ out
    → Effects s (committed s out)
committed-Effects s j status values f now unchanged h = done
committed-Effects s j status values f now row_count h = done
committed-Effects s j status values f now (moved t) h =
    one (finish_in-Effect j status values f now s t h)

pub dropped-Effects : (j : ℕ) (s : Db) → Effects s (delete_blocked j (delete_ready j s))
dropped-Effects j s = one (entries refl refl refl refl)

pub expire_queued_job-Effects :
    (job : Job) (reason : Text) (now : ℕ) (s : Db)
    → Effects s (expire_queued_job job reason now s).1
unfolding expire_queued_job fail_queued
expire_queued_job-Effects job reason now s =
    moved_or-Effects s _ (dropped-Effects job.id s) job.id Status.failed _ _ now _ refl

abbrev cancel_found : ℕ → Db → Option Job → Bool × Db
cancel_found now s none = (false, s)
cancel_found now s (some job) = cancel_row job now s

cancel_found-Effects : (now : ℕ) (s : Db) (row : Option Job) → Effects s (cancel_found now s row).1
cancel_found-Effects now s none = done
cancel_found-Effects now s (some job) =
    moved_or-Effects s _ (dropped-Effects job.id s) job.id Status.failed _ _ now _ refl

pub cancel_job-Effects : (j now : ℕ) (s : Db) → Effects s (cancel_job j now s).1
unfolding cancel_job
cancel_job-Effects j now s = cancel_found-Effects now s _

pub block_job-Effects : (job : Job) (s : Db) → Effects s (block_job job s).1
unfolding block_job
block_job-Effects job s =
    elim (Bool-cases (is_empty (dependency_ids job.dependencies) || (ready_count job.id s == 0))) [
      | inl y ↦ rw y done
      | inr n ↦ rw n (one (entries refl refl refl refl))
    ]

abbrev pub failed_with : Job → Db → Finish → Recheck × Db
failed_with job s (moved db') = (Recheck.failed, db')
failed_with job s unchanged = (Recheck.failed, delete_blocked job.id (delete_ready job.id s))
failed_with job s row_count = (Recheck.broken, s)

failed-Effects :
    (job : Job) (now : ℕ) (s : Db) (out : Finish)
    → fail_queued job (codes "dependency_failed") now s ≡ out
    → Effects s (failed_with job s out).1
unfolding fail_queued
failed-Effects job now s (moved t) h =
    after (dropped-Effects job.id s) (finish_in-Effect job.id Status.failed _ _ now _ t h)
failed-Effects job now s unchanged h = dropped-Effects job.id s
failed-Effects job now s row_count h = done

apply_verdict-Effects :
    (slot : ℕ) (job : Job) (now : ℕ) (v : State) (s : Db)
    → Effects s (apply_verdict slot job now v s).1
apply_verdict-Effects slot job now State.pending s = done
apply_verdict-Effects slot job now State.failed s = failed-Effects job now s _ refl
apply_verdict-Effects slot job now State.met s =
    after (one (entries refl refl refl refl))
      (write_ready-Effect slot job (delete_blocked job.id s))

abbrev pub recheck_found : ℕ → ℕ → ℕ → Db → Option Job → Recheck × Db
recheck_found slot j now s none = (Recheck.gone, delete_blocked j s)
recheck_found slot j now s (some job) =
    if not (is_queued job.status) || is_running j s
    then (Recheck.gone, delete_blocked j s)
    else apply_verdict slot job now
        (judge_dependencies (lookup_in s) (dependency_ids job.dependencies)).state s

recheck_found-Effects :
    (slot j now : ℕ) (s : Db) (row : Option Job) → Effects s (recheck_found slot j now s row).1
recheck_found-Effects slot j now s none = one (entries refl refl refl refl)
recheck_found-Effects slot j now s (some job) =
    elim (Bool-cases (not (is_queued job.status) || is_running j s)) [
      | inl y ↦ rw y (one (entries refl refl refl refl))
      | inr n ↦ rw n (apply_verdict-Effects slot job now _ s)
    ]

pub recheck_blocked-Effects :
    (slot j created_at now : ℕ) (s : Db) → Effects s (recheck_blocked slot j created_at now s).1
unfolding recheck_blocked
recheck_blocked-Effects slot j created_at now s = recheck_found-Effects slot j now s _
