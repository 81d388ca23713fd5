-- ===== src/Backend/Sweeping.antt =====
-- The sweep of fastapi_sqlery/backend.py, maintain_ready_queue: the transactions that it is made of.
use sqlery.Prelude.{
  ℕ, ◌+◌, ◌≡◌, Bool, Option, none, some, List, [], ◌∷◌, String, length, take, refl, sym, subst,
  arith,
}
use sqlery.Backend.{Job, ReadyEntry, Db, select_where}
use sqlery.Backend.Complete.{settled_values, status_fences}
use sqlery.Backend.Dependents.{Released, out_of_fuel, raised, released, release_dependents}
use sqlery.Backend.Ends.{Reach-append}
use sqlery.Backend.Finish.{Finish, unchanged, row_count, moved, finish_in}
use sqlery.Backend.Recovery.{settle_stray, settle_status, has_child, settle_row, committed}
use sqlery.Backend.Release.{all_jobs, recheck_blocked}
use sqlery.Backend.Releases.{LeavesReached, release_dependents-is_finished}
use sqlery.Backend.Sweep.{
  sort_strays, after_move, settle_as, settle_one, settle_all, recheck_page, tables_after,
  release_quietly, maintain_ready_queue, settle_finished_jobs, is_stray,
}
use sqlery.Backend.Trace.{Reach, start, step, settles, rechecks, repairs}
use sqlery.Ready.{Status}

abbrev settled_by : Job → ℕ → Db → Option Status → Db
settled_by job now t none = t
settled_by job now t (some status) = settle_row job status now t

settle_stray-moved :
    (job : Job) (now : ℕ) (t u : Db) (status : Status)
    → settle_status job.status job.termination_reason (has_child job.id (all_jobs t)) ≡ some status
    → finish_in job.id status (settled_values job) (status_fences job job.status) now t ≡ moved u
    → settle_stray job now t ≡ u
unfolding settle_stray
settle_stray-moved job now t u status e f =
    subst (λ o. settled_by job now t o ≡ u) (sym e) (subst (λ o. committed t o ≡ u) (sym f) refl)

release_quietly-Reach :
    (slot now j : ℕ) (parent : Option ℕ) (s t : Db)
    → Reach s t
    → Reach s (release_quietly slot now j parent t)
release_quietly-Reach slot now j parent s t r =
    left (release_dependents slot now (length t.live + 2) j parent t)
      (release_dependents-is_finished slot now (length t.live + 2) j parent t (omega arith)).1
  where
    left : (out : Released) → LeavesReached t out → Reach s (tables_after slot now t out)
    left out_of_fuel q = r
    left (raised u) q = Reach-append r q
    left (released n u) q = Reach-append r q

settle_one-Reach :
    (slot now : ℕ) (job : Job) (s t : Db) → Reach s t → Reach s (settle_one slot now job t)
unfolding settle_one
settle_one-Reach slot now job s t r =
    by_status (settle_status job.status job.termination_reason (has_child job.id (all_jobs t))) refl
  where
    by_finish :
        (status : Status) (out : Finish)
        → settle_status job.status job.termination_reason (has_child job.id (all_jobs t))
          ≡ some status
        → finish_in job.id status (settled_values job) (status_fences job job.status) now t ≡ out
        → Reach s (after_move slot now job t out)
    by_finish status unchanged e f = r
    by_finish status row_count e f = r
    by_finish status (moved u) e f =
        release_quietly-Reach slot now job.id job.parent_job_id s u
          (subst (Reach s) (settle_stray-moved job now t u status e f) (step r (settles job now)))

    by_status :
        (status : Option Status)
        → settle_status job.status job.termination_reason (has_child job.id (all_jobs t)) ≡ status
        → Reach s (settle_as slot now job t status)
    by_status none e = r
    by_status (some status) e =
        by_finish status
          (finish_in job.id status (settled_values job) (status_fences job job.status) now t) e refl

settle_all-Reach :
    (slot now : ℕ) (jobs : List Job) (s t : Db) → Reach s t → Reach s (settle_all slot now jobs t)
unfolding settle_all
settle_all-Reach slot now [] s t r = r
settle_all-Reach slot now (job ∷ jobs) s t r =
    settle_all-Reach slot now jobs s (settle_one slot now job t)
      (settle_one-Reach slot now job s t r)

recheck_page-Reach :
    (slot now : ℕ) (page : List (ℕ × ℕ)) (s t : Db)
    → Reach s t
    → Reach s (recheck_page slot now page t)
unfolding recheck_page
recheck_page-Reach slot now [] s t r = r
recheck_page-Reach slot now (p ∷ ps) s t r =
    recheck_page-Reach slot now ps s (recheck_blocked slot p.0 p.1 now t).1
      (step r (rechecks slot p.0 p.1 now))

-- A sweep is a sequence of transactions that any process may run, so what holds in every sequence of
-- them holds through a sweep.
pub maintain_ready_queue-Reach :
    (slot : ℕ) (names : List String) (limit after_job_id : ℕ) (locked : ReadyEntry → Bool)
    (cutoff now : ℕ) (s : Db)
    → Reach s (maintain_ready_queue slot names limit after_job_id locked cutoff now s).0
unfolding maintain_ready_queue settle_finished_jobs
maintain_ready_queue-Reach slot names limit after_job_id locked cutoff now s =
    recheck_page-Reach slot now _ s _ (
      step
        (settle_all-Reach slot now
          (take limit (sort_strays (select_where (is_stray cutoff) s.live))) s s start)
        (repairs slot names limit locked))
