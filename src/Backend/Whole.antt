-- ===== src/Backend/Whole.antt =====
-- On valid tables a completion never meets two rows of its job.
use sqlery.Prelude.{
  ℕ, ◌≤◌, List, [], ◌∷◌, Option, none, some, ◌≡◌, ◌≢◌, refl, arith, inl, inr, Option-cases,
  Bool-cases, ◌&&◌, length,
}
use sqlery.Attempts.{Attempt, AttemptHandle, Outcome}
use sqlery.Backend.{Job, Db, select_where, close_attempt}
use sqlery.Backend.Complete.{
  opened_attempt, broken, fenced_update, record_status, of_finish, mark_pending,
}
use sqlery.Backend.Finish.{
  Values, Fences, no_fences, Finish, unchanged, row_count, moved, finish_in, finish_rows,
  fences_hold,
}
use sqlery.Backend.OneAttempt.{IsValid}
use sqlery.Backend.Places.{rows_of}
use sqlery.Ready.{Status, is_failed}
use sqlery.Retry.{is_retry_pending}

selected-le :
    (s : Db) (j : ℕ) (f : Fences) (xs : List Job)
    → length (select_where (fences_hold s j f) xs) ≤ rows_of j xs
unfolding rows_of
selected-le s j f [] = omega arith
selected-le s j f (x ∷ xs) = ground (arith, selected-le s j f xs)

finish_rows-ne-row_count :
    (s : Db) (j : ℕ) (f : Fences) (status : Status) (values : Values) (now : ℕ) (rows : List Job)
    → length rows ≤ 1
    → finish_rows s j f status values now rows ≢ row_count
finish_rows-ne-row_count s j f status values now [] h = λ e. cc
finish_rows-ne-row_count s j f status values now (x ∷ []) h = λ e. cc
finish_rows-ne-row_count s j f status values now (x ∷ y ∷ rows) h = absurd (omega arith)

finish_in-ne-row_count :
    (s : Db) (j : ℕ) (f : Fences) (status : Status) (values : Values) (now : ℕ)
    → rows_of j s.live ≤ 1
    → finish_in j status values f now s ≢ row_count
unfolding finish_in
finish_in-ne-row_count s j f status values now one_row =
    finish_rows-ne-row_count s j f status values now (select_where (fences_hold s j f) s.live)
      (omega (arith, selected-le s j f s.live))

of_finish-ne-broken :
    (version : Option ℕ) (out : Finish) → out ≢ row_count → of_finish version out ≢ broken
of_finish-ne-broken none unchanged h = λ e. cc
of_finish-ne-broken (some v) unchanged h = λ e. cc
of_finish-ne-broken version row_count h = absurd (h refl)
of_finish-ne-broken version (moved t) h = λ e. cc

mark_pending-ne-broken :
    (j : ℕ) (version : Option ℕ) (status : Status) (values : Values) (opened : Option Attempt)
    (s : Db)
    → mark_pending j version status values opened s ≢ broken
mark_pending-ne-broken j none status values opened s = λ e. ground arith
mark_pending-ne-broken j (some v) status values opened s = λ e. ground arith

record_status-ne-broken :
    (j : ℕ) (version : Option ℕ) (status : Status) (values : Values) (opened : Option Attempt)
    (now : ℕ) (s : Db)
    → rows_of j s.live ≤ 1
    → record_status j version status values opened now s ≢ broken
record_status-ne-broken j version status values opened now s h =
    elim (Bool-cases (is_failed status && is_retry_pending values.termination_reason)) [
      | inl y ↦ rw y (mark_pending-ne-broken j version status values opened s)
      | inr n ↦ rw n (
          of_finish-ne-broken version _ (
            finish_in-ne-row_count s j (record no_fences { expected_version = version }) status
              values now h))
    ]

close_attempt-live :
    (j : ℕ) (attempt : Option AttemptHandle) (o : Outcome) (now : ℕ) (s t : Db)
    → close_attempt j attempt o now s ≡ some t
    → t.live ≡ s.live
unfolding close_attempt
close_attempt-live j none o now s t e = ground arith
close_attempt-live j (some h) o now s t e = ground arith

-- On valid tables a completion never ends in the RuntimeError of a row count.
pub fenced_update-ne-broken :
    (j : ℕ) (version : Option ℕ) (status : Status) (values : Values)
    (attempt : Option AttemptHandle) (o : Outcome) (now : ℕ) (s : Db)
    → IsValid s
    → fenced_update j version status values attempt o now s ≢ broken
unfolding fenced_update
fenced_update-ne-broken j version status values attempt o now s v =
    elim (Option-cases (close_attempt j attempt o now s)) [
      | inl no_match ↦ rw (no_match, fenced_update) (λ e. cc)
      | inr (t, e) ↦
          rw (e, fenced_update)
            (record_status-ne-broken j version status values (opened_attempt j s) now t
              (rw (close_attempt-live j attempt o now s t e) (omega (arith, v.one_place j))))
    ]
