-- ===== src/Backend/Recorded.antt =====
-- Each completion is a chain of the changes of Backend/Effect.
use sqlery.Prelude.{
  inr, inl, ◌&&◌, length, ◌==◌, ltb, Bool-cases, subst, ℕ, Bool, [], ◌∷◌, none, some, refl, List,
  ◌≡◌, Option, arith,
}
use sqlery.Attempts.{
  Attempt, is_exact, close_exact, unfenced_outcome, close_unfenced, is_open_for, AttemptHandle,
  Outcome,
}
use sqlery.Backend.{length, ltb, select_where, Job, Db, close_attempt}
use sqlery.Backend.Complete
use sqlery.Backend.Complete.{
  opened_attempt, of_version, mark_row, not_applied, archive_row, Completion, rejected, gone,
  broken, recorded, of_finish, mark_pending, update_rows, record_status, fenced_update,
  mark_job_archived,
}
use sqlery.Backend.Effect.{Effect, Effects, Closes, mark, move, close, done, after, one}
use sqlery.Backend.Finish.{
  straggler_outcome, Values, Fences, moved, unchanged, row_count, finish_in, Finish, finish_rows,
  move_job, fences_hold,
}
use sqlery.Backend.Places.{rows_of, finish_in-IsMove}
use sqlery.Ready.{is_failed, Status}
use sqlery.Retry.{is_retry_pending}

-- A table keeps its ids under an update.
rows_of-update_rows :
    (test : Job → Bool) (status : Status) (values : Values) (opened : Option Attempt) (k : ℕ)
    (xs : List Job)
    → rows_of k (update_rows (mark_row test status values opened) xs) ≡ rows_of k xs
unfolding rows_of
rows_of-update_rows test status values opened k [] = refl
rows_of-update_rows test status values opened k (x ∷ xs) =
    ground (arith, rows_of-update_rows test status values opened k xs)

finish_rows-Closes :
    (s t : Db) (j : ℕ) (f : Fences) (status : Status) (values : Values) (now : ℕ) (rows : List Job)
    → finish_rows s j f status values now rows ≡ moved t
    → Closes s t
finish_rows-Closes s t j f status values now [] h = cc
finish_rows-Closes s t j f status values now (x ∷ y ∷ rows) h = cc
finish_rows-Closes s t j f status values now (x ∷ []) h =
    let same : move_job s j f status values now x ≡ t = cc in
    subst (Closes s) same (record {
      test = is_open_for j;
      now = now;
      outcome = straggler_outcome status;
      attempts_closed = refl;
      next_same = refl;
    })

pub finish_in-Effect :
    (j : ℕ) (status : Status) (values : Values) (f : Fences) (now : ℕ) (s t : Db)
    → finish_in j status values f now s ≡ moved t
    → Effect s t
unfolding finish_in
finish_in-Effect j status values f now s t h =
    move j (finish_in-IsMove s j f status values now t h)
      (finish_rows-Closes s t j f status values now (select_where (fences_hold s j f) s.live) h)

pub close_attempt-Effect :
    (j : ℕ) (attempt : Option AttemptHandle) (o : Outcome) (now : ℕ) (s t : Db)
    → close_attempt j attempt o now s ≡ some t
    → Effect s t
unfolding close_attempt
close_attempt-Effect j none o now s t e =
    let same : record s { attempts = close_unfenced j o now s.attempts } ≡ t = cc in
    subst (Effect s) same (
      close refl refl (record {
        test = is_open_for j;
        now = now;
        outcome = unfenced_outcome o;
        attempts_closed = refl;
        next_same = refl;
      }))
close_attempt-Effect j (some h) o now s t e =
    let same : record s { attempts = close_exact h o now s.attempts } ≡ t = ground arith in
    subst (Effect s) same (
      close refl refl (record {
        test = is_exact h;
        now = now;
        outcome = o;
        attempts_closed = refl;
        next_same = refl;
      }))

module _ (before db : Db) (e : Effects before db) where
  not_applied-Effects :
      (version : Option ℕ) → Effects before (Complete.after before (not_applied version))
  not_applied-Effects none = done
  not_applied-Effects (some v) = done

  pub of_finish-Effects :
      (j : ℕ) (status : Status) (values : Values) (f : Fences) (now : ℕ) (version : Option ℕ)
      (out : Finish)
      → finish_in j status values f now db ≡ out
      → Effects before (Complete.after before (of_finish version out))
  of_finish-Effects j status values f now version unchanged h = not_applied-Effects version
  of_finish-Effects j status values f now version row_count h = done
  of_finish-Effects j status values f now version (moved t) h =
      after e (finish_in-Effect j status values f now db t h)

  mark_pending-Effects :
      (j : ℕ) (version : Option ℕ) (status : Status) (values : Values) (opened : Option Attempt)
      → Effects before (Complete.after before (mark_pending j version status values opened db))
  mark_pending-Effects j version status values opened =
      elim (Bool-cases (ltb 0 (length (select_where (of_version j version) db.live)))) [
        | inl y ↦ rw y (
            after e (
              mark (λ k. rows_of-update_rows (of_version j version) status values opened k db.live)
                refl refl refl))
        | inr n ↦ rw n (not_applied-Effects version)
      ]

  pub record_status-Effects :
      (j : ℕ) (version : Option ℕ) (status : Status) (values : Values) (opened : Option Attempt)
      (now : ℕ)
      → Effects before (Complete.after before (record_status j version status values opened now db))
  record_status-Effects j version status values opened now =
      elim (Bool-cases (is_failed status && is_retry_pending values.termination_reason)) [
        | inl y ↦ rw y (mark_pending-Effects j version status values opened)
        | inr n ↦ rw n (of_finish-Effects j status values _ now version _ refl)
      ]

module _ (j : ℕ) (version : Option ℕ) (status : Status) (values : Values)
    (opened : Option Attempt) where
  abbrev of_close : ℕ → Option Db → Completion
  of_close now none = rejected
  of_close now (some db) = record_status j version status values opened now db

  of_close-Effects :
      (attempt : Option AttemptHandle) (o : Outcome) (now : ℕ) (s : Db) (out : Option Db)
      → close_attempt j attempt o now s ≡ out
      → Effects s (Complete.after s (of_close now out))
  of_close-Effects attempt o now s none e = done
  of_close-Effects attempt o now s (some db) e =
      record_status-Effects s db (one (close_attempt-Effect j attempt o now s db e)) j version
        status values opened now

pub fenced_update-Effects :
    (j : ℕ) (version : Option ℕ) (status : Status) (values : Values)
    (attempt : Option AttemptHandle) (o : Outcome) (now : ℕ) (s : Db)
    → Effects s (Complete.after s (fenced_update j version status values attempt o now s))
unfolding fenced_update
fenced_update-Effects j version status values attempt o now s =
    of_close-Effects j version status values (opened_attempt j s) attempt o now s _ refl

abbrev archive_first : ℕ → Db → List Job → Completion
archive_first now s [] = gone
archive_first now s (job ∷ rest) = archive_row job now s

archive_first-Effects :
    (now : ℕ) (s : Db) (rows : List Job) → Effects s (Complete.after s (archive_first now s rows))
archive_first-Effects now s [] = done
archive_first-Effects now s (job ∷ rest) =
    of_finish-Effects s s done job.id Status.archived _ _ now none _ refl

pub mark_job_archived-Effects :
    (j now : ℕ) (s : Db) → Effects s (Complete.after s (mark_job_archived j now s))
unfolding mark_job_archived
mark_job_archived-Effects j now s =
    archive_first-Effects now s (select_where (λ job. (job.id == j) && is_failed job.status) s.live)
