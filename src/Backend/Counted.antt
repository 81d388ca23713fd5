-- ===== src/Backend/Counted.antt =====
-- How many jobs of the live table and of history a test picks, where the test reads columns that
-- stay the same.
use sqlery.Prelude.{
  ◌&&◌, ◌==◌, ℕ, suc, ◌+◌, ◌≡◌, Bool, not, Option, none, some, List, [], ◌∷◌, ◌++◌, map, arith,
  refl, ap, subst, Bool-cases, Option-cases, inl, inr, if◌then◌else◌,
}
use sqlery.Attempts.{is_open_for}
use sqlery.Backend.{is_open_for, Run, Job, Db, select_where, first}
use sqlery.Backend.Complete
use sqlery.Backend.Complete.{
  settled_values, status_fences, Completion, rejected, gone, broken, recorded, of_finish,
  mark_job_archived, archive_row,
}
use sqlery.Backend.Finish.{
  Finish, unchanged, row_count, moved, finish_in, finish_rows, move_job, history_row, Fences,
  Values, fences_hold,
}
use sqlery.Backend.Recovery.{settle_retry_pending, settle_row, committed}
use sqlery.Backend.Release.{all_jobs, shown}
use sqlery.Ready.{Status, is_queued, is_failed}

unfoldable pub counted : (Job → Bool) → List Job → ℕ
counted test [] = 0
counted test (job ∷ jobs) = if test job then suc (counted test jobs) else counted test jobs

unfoldable pub total : (Job → Bool) → Db → ℕ
total test s = counted test s.live + counted test s.history

pub counted-append :
    (test : Job → Bool) (xs ys : List Job)
    → counted test (xs ++ ys) ≡ counted test xs + counted test ys
unfolding counted
counted-append test [] ys = omega arith
counted-append test (x ∷ xs) ys = ground (arith, counted-append test xs ys)

counted-split :
    (test pick : Job → Bool) (xs : List Job)
    → counted test (select_where pick xs) + counted test (select_where (λ x. not (pick x)) xs)
      ≡ counted test xs
unfolding counted
counted-split test pick [] = omega arith
counted-split test pick (x ∷ xs) = ground (arith, counted-split test pick xs)

-- The test does not read what a transition writes.
abbrev pub IsStable : (Job → Bool) → Type 0
IsStable test =
    (job : Job) (status : Status) (version : ℕ) (reason : List ℕ) (finished_at : Option ℕ)
    (run : Run)
    → test (record job {
      status = status;
      version = version;
      termination_reason = reason;
      finished_at = finished_at;
      run = run;
    })
      ≡ test job

module _ (test : Job → Bool) (stable : IsStable test) where
  counted-one :
      (job job' : Job) → test job' ≡ test job → counted test (job' ∷ []) ≡ counted test (job ∷ [])
  unfolding counted
  counted-one job job' e = rw e refl

  total-finish_rows :
      (s t : Db) (j : ℕ) (f : Fences) (status : Status) (values : Values) (now : ℕ)
      (rows : List Job)
      → select_where (fences_hold s j f) s.live ≡ rows
      → finish_rows s j f status values now rows ≡ moved t
      → total test t ≡ total test s
  unfolding total
  total-finish_rows s t j f status values now [] e h = cc
  total-finish_rows s t j f status values now (x ∷ y ∷ rows) e h = cc
  total-finish_rows s t j f status values now (x ∷ []) e h =
      let same : move_job s j f status values now x ≡ t = cc in
      subst (λ u. total test u ≡ total test s) same
        (omega (
          arith,
          counted-split test (fences_hold s j f) s.live,
          ap (counted test) e,
          counted-append test s.history (history_row s status values now x ∷ []),
          counted-one x (history_row s status values now x) (stable x _ _ _ _ _),
        ))

  pub total-finish_in :
      (s t : Db) (j : ℕ) (f : Fences) (status : Status) (values : Values) (now : ℕ)
      → finish_in j status values f now s ≡ moved t
      → total test t ≡ total test s
  unfolding finish_in
  total-finish_in s t j f status values now h =
      total-finish_rows s t j f status values now (select_where (fences_hold s j f) s.live) refl h

  total-of_finish :
      (version : Option ℕ) (s : Db) (out : Finish)
      → ((t : Db) → out ≡ moved t → total test t ≡ total test s)
      → total test (Complete.after s (of_finish version out)) ≡ total test s
  total-of_finish none s unchanged h = refl
  total-of_finish (some v) s unchanged h = refl
  total-of_finish version s row_count h = refl
  total-of_finish version s (moved t) h = h t refl

  total-committed :
      (s : Db) (out : Finish)
      → ((t : Db) → out ≡ moved t → total test t ≡ total test s)
      → total test (committed s out) ≡ total test s
  total-committed s unchanged h = refl
  total-committed s row_count h = refl
  total-committed s (moved t) h = h t refl

  pub total-mark_job_archived :
      (j now : ℕ) (s : Db)
      → total test (Complete.after s (mark_job_archived j now s)) ≡ total test s
  unfolding mark_job_archived
  total-mark_job_archived j now s =
      archived (select_where (λ job. (job.id == j) && is_failed job.status) s.live) refl
    where
      archived :
          (rows : List Job)
          → select_where (λ job. (job.id == j) && is_failed job.status) s.live ≡ rows
          → total test (Complete.after s (mark_job_archived j now s)) ≡ total test s
      archived [] e = rw (e, mark_job_archived) refl
      archived (job ∷ rest) e =
          rw (e, mark_job_archived)
            (total-of_finish none s
              (finish_in job.id Status.archived (settled_values job)
                (status_fences job Status.failed) now s)
              (λ t h.
                total-finish_in s t job.id (status_fences job Status.failed) Status.archived
                  (settled_values job) now h))

  settle_row-total :
      (job : Job) (status : Status) (now : ℕ) (s : Db)
      → total test (settle_row job status now s) ≡ total test s
  settle_row-total job status now s =
      total-committed s
        (finish_in job.id status (settled_values job) (status_fences job job.status) now s)
        (λ t h.
          total-finish_in s t job.id (status_fences job job.status) status (settled_values job) now
            h)

  pub total-settle_retry_pending :
      (j now : ℕ) (s : Db) → total test (settle_retry_pending j now s) ≡ total test s
  unfolding settle_retry_pending
  total-settle_retry_pending j now s =
      elim (Option-cases
        (first (select_where (λ job. (job.id == j) && is_failed job.status) s.live))) [
          | inl e ↦ rw (e, settle_retry_pending) refl
          | inr (job, e) ↦ rw (e, settle_retry_pending) (settle_row-total job Status.failed now s)
        ]

shown-stable :
    (test : Job → Bool) → IsStable test → (s : Db) (job : Job) → test (shown s job) ≡ test job
shown-stable test stable s job =
    elim (Option-cases (first (select_where (is_open_for job.id) s.attempts))) [
      | inl idle ↦ rw (idle, shown) refl
      | inr (a, e) ↦
          rw (e, shown)
            (elim (Bool-cases (is_queued job.status)) [
              | inl y ↦ rw y (stable job _ _ _ _ _)
              | inr n ↦ rw n refl
            ])
    ]

counted-shown :
    (test : Job → Bool)
    → IsStable test
    → (s : Db) (xs : List Job) → counted test (map (shown s) xs) ≡ counted test xs
unfolding counted
counted-shown test stable s [] = refl
counted-shown test stable s (x ∷ xs) =
    rw (shown-stable test stable s x) (ground (arith, counted-shown test stable s xs))

-- The view of all jobs has the rows of both tables.
pub counted-all_jobs :
    (test : Job → Bool) → IsStable test → (s : Db) → counted test (all_jobs s) ≡ total test s
unfolding total
counted-all_jobs test stable s = omega (
  arith,
  counted-append test (map (shown s) s.live) s.history,
  counted-shown test stable s s.live,
)
