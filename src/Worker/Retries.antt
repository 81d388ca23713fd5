-- ===== src/Worker/Retries.antt =====
-- The retries of a failed job.
use sqlery.Prelude.{
  false, ==_self, ℕ, ◌+◌, ◌≤◌, ◌≡◌, max, true, Option, none, some, List, [], ◌∷◌, arith, refl, ◌∙◌,
  Bool-cases, inl, inr, ◌&&◌,
}
use sqlery.Backend.{Job, Db}
use sqlery.Backend.Complete
use sqlery.Backend.Complete.{mark_job_archived}
use sqlery.Backend.Counted.{
  counted, total, IsStable, counted-append, counted-all_jobs, total-mark_job_archived,
  total-settle_retry_pending,
}
use sqlery.Backend.Release.{create_job, all_jobs, newest_child, is_child_of, beats, queued_row}
use sqlery.Retry.{JobSpec, Failure}
use sqlery.Worker.{Settings}
use sqlery.Worker.Child.{
  is_retry_staged, Given, delay_of, retry_row, retry_by, retry_job, finish_retry_bookkeeping,
}

-- The rows, live or finished, that are retries of job `j`.
pub retries : ℕ → Db → ℕ
retries j = total (is_child_of j)

is_child_of-cong : (j : ℕ) → IsStable (is_child_of j)
is_child_of-cong j job status version reason finished_at run = refl

newest_child-some : (best : Job) (j : ℕ) (xs : List Job) → newest_child (some best) j xs ≡ none → ⊥
newest_child-some best j [] e = cc
newest_child-some best j (x ∷ xs) e = elim (Bool-cases (is_child_of j x && beats x (some best))) [
  | inl y ↦ newest_child-some x j xs (rw y at e)
  | inr n ↦ newest_child-some best j xs (rw n at e)
]

newest_child-none :
    (j : ℕ) (xs : List Job) → newest_child none j xs ≡ none → counted (is_child_of j) xs ≡ 0
unfolding counted
newest_child-none j [] e = refl
newest_child-none j (x ∷ xs) e = elim (Bool-cases (is_child_of j x)) [
  | inl y ↦ absurd (newest_child-some x j xs (rw y at e))
  | inr n ↦ rw n (newest_child-none j xs (rw n at e))
]

newest_child-found :
    (best : Option Job) (j : ℕ) (xs : List Job) (job : Job)
    → best ≡ none
    → newest_child best j xs ≡ some job
    → 1 ≤ counted (is_child_of j) xs
unfolding counted
newest_child-found best j [] job b e = cc
newest_child-found best j (x ∷ xs) job b e = elim (Bool-cases (is_child_of j x)) [
  | inl y ↦ rw y (omega arith)
  | inr n ↦ rw n (newest_child-found best j xs job b (rw n at e))
]

retries-bookkeeping :
    (j k now : ℕ) (s : Db) → retries j (finish_retry_bookkeeping k now s) ≡ retries j s
unfolding retries finish_retry_bookkeeping
retries-bookkeeping j k now s =
    total-settle_retry_pending (is_child_of j) (is_child_of-cong j) k now
      (Complete.after s (mark_job_archived k now s))
    ∙ total-mark_job_archived (is_child_of j) (is_child_of-cong j) k now s

create_job-retries :
    (j slot : ℕ) (job : Job) (s : Db)
    → is_child_of j job ≡ true
    → retries j (create_job slot job s) ≡ retries j s + 1
unfolding retries create_job total counted
create_job-retries j slot job s child =
    ground (arith, counted-append (is_child_of j) s.live (queued_row job ∷ []))

retry_by-retries :
    (g : Given) (delay : ℕ) (failed : Job) (s : Db) (best : Option Job)
    → is_retry_staged g delay ≡ false
    → newest_child none failed.id (all_jobs s) ≡ best
    → retries failed.id (retry_by g delay failed s best) ≡ max 1 (retries failed.id s)
unfolding retries
retry_by-retries g delay failed s none live e =
    let none_yet = newest_child-none failed.id (all_jobs s) e in
    let all = counted-all_jobs (is_child_of failed.id) (is_child_of-cong failed.id) s in
    rw live (
      omega (
        arith,
        retries-bookkeeping failed.id failed.id g.now
            (create_job g.slot (retry_row g delay failed) s),
        create_job-retries failed.id g.slot (retry_row g delay failed) s (==_self failed.id),
        none_yet,
        all,
      ))
retry_by-retries g delay failed s (some job) live e =
    let some_already = newest_child-found none failed.id (all_jobs s) job refl e in
    let all = counted-all_jobs (is_child_of failed.id) (is_child_of-cong failed.id) s in
    omega (arith, retries-bookkeeping failed.id failed.id g.now s, some_already, all)

-- The handling of a failure leaves the failed job with the retries that it had, or with one retry
-- if it had none: done again, by a worker or by recovery, it makes no second one. The retry is one
-- that goes to the live table (tables without partitions, or a delay below the threshold of staging),
-- where no row has its name.
pub retries-retry_job :
    (set : Settings) (g : Given) (spec : JobSpec) (exc : Option Failure) (countdown : Option ℕ)
    (failed : Job) (s : Db)
    → is_retry_staged g (delay_of set spec exc countdown) ≡ false
    → retries failed.id (retry_job set g spec exc countdown failed s) ≡ max 1 (retries failed.id s)
unfolding retry_job
retries-retry_job set g spec exc countdown failed s live =
    retry_by-retries g (delay_of set spec exc countdown) failed s
      (newest_child none failed.id (all_jobs s)) live refl
