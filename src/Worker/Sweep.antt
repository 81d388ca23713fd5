-- ===== src/Worker/Sweep.antt =====
-- What the sweep for stale jobs does to a job that ended after the sweep had read it.
use sqlery.Prelude.{
  false, ℕ, ◌-◌, ◌<◌, ◌≡◌, max, Bool, true, Option, none, some, List, [], ◌∷◌, ltb, arith, refl,
  subst, ◌==◌, ==_iff, Bool-cases, inl, inr,
}
use sqlery.Backend.{Job, Db, find_live}
use sqlery.Backend.Ancestors.{find_job}
use sqlery.Backend.Complete.{gone}
use sqlery.Retry.{JobSpec}
use sqlery.Worker.{Settings, should_retry, mark_job_failed, mark_failed}
use sqlery.Worker.Child.{Given, retry_job, is_retry_staged, delay_of}
use sqlery.Worker.Retries.{retries, retries-retry_job}
use sqlery.Worker.Stale.{threshold, cleanup_stale_job}

find_job-id : (j : ℕ) (jobs : List Job) (row : Job) → find_job j jobs ≡ some row → row.id ≡ j
find_job-id j [] row e = cc
find_job-id j (x ∷ xs) row e = elim (Bool-cases (x.id == j)) [
  | inl y ↦
      let same : some x ≡ some row = rw y at e in
      let equal : x ≡ row = cc in subst (λ (r : Job). r.id ≡ j) equal ((==_iff x.id j).0 y)
  | inr n ↦ find_job-id j xs row (rw n at e)
]

module _ (set : Settings) (g : Given) (spec : JobSpec) (j : ℕ) (s : Db) (row : Job)
    (left : find_live j s ≡ none) (ended : find_job j s.history ≡ some row) where
  mark_failed-gone : (will_retry : Bool) → mark_failed j none will_retry none g.now s ≡ gone
  unfolding mark_failed mark_job_failed
  mark_failed-gone will_retry = rw (left, ended) refl

  -- A job that ended, even with success, after the sweep had read it as running for longer than the
  -- threshold, gets a retry if it has none, provided that its retry columns leave one,
  -- that the retry is not staged, and that no live row has its name.
  pub cleanup_stale_job-retries_ended :
      (started : ℕ) (timeout : Option ℕ)
      → threshold timeout < g.now - started
      → should_retry set spec none ≡ true
      → is_retry_staged g (delay_of set spec none none) ≡ false
      → retries j (cleanup_stale_job set g spec j (some started) timeout s) ≡ max 1 (retries j s)
  unfolding cleanup_stale_job
  cleanup_stale_job-retries_ended started timeout stale allowed live =
      let late : ltb (threshold timeout) (g.now - started) ≡ true = ground arith in
      rw (late, mark_failed-gone (should_retry set spec none))
        (rw (left, ended)
          (rw allowed (
            subst (λ k. retries k (retry_job set g spec none none row s) ≡ max 1 (retries k s))
              (find_job-id j s.history row ended)
              (retries-retry_job set g spec none none row s live))))
