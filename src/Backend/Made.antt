-- ===== src/Backend/Made.antt =====
-- Each transaction of the backend is a chain of the changes of Backend/Effect.
use sqlery.Prelude.{
  if◌then◌else◌, [], ◌∷◌, none, some, true, refl, ◌||◌, sym, inr, not, ltb, subst, inl, ◌==◌, ◌&&◌,
  ◌≤◌, arith, Bool-cases, false, ◌≡◌, List, Option, ℕ, Bool,
}
use sqlery.Attempts.{claim_verdict, AttemptHandle}
use sqlery.Attempts.Close.{open_attempt_exists-open_count}
use sqlery.Backend.{
  restore, keep, claimed, delete_blocked, delete_ready, find_live, is_queued, ◌∷◌, not, ltb,
  insert_attempt, ready_count, some, select_where, true, false, first, judge_row, List, is_running,
  start_attempt, Start, claim_verdict, AttemptHandle, Option, Job, Db, Claimer,
}
use sqlery.Backend.Claim.{settle_by_id, settle_start, Claimed, claim_job_by_id, atomic_claim_job}
use sqlery.Backend.Effect.{entries, start, one, after, done, Effects, Effect}
use sqlery.Backend.Places.{rows_of}
use sqlery.Ready.{is_queued}

-- A live row that a test selects is there.
selected-rows_of :
    (test : Job → Bool) (j : ℕ) (xs : List Job) (row : Job)
    → ((x : Job) → test x ≡ true → (x.id == j) ≡ true)
    → first (select_where test xs) ≡ some row
    → 1 ≤ rows_of j xs
unfolding rows_of
selected-rows_of test j [] row only h = cc
selected-rows_of test j (x ∷ xs) row only h =
    ground (arith, only x, selected-rows_of test j xs row only)

judge_row-claimed :
    (c : Claimer) (job row : Job) (s t : Db) (h : AttemptHandle)
    → judge_row c job row s ≡ claimed h t
    → t ≡ insert_attempt c job.id s
judge_row-claimed c job row s t h e = ground arith

judge_row-idle :
    (c : Claimer) (job row : Job) (s t : Db) (h : AttemptHandle)
    → judge_row c job row s ≡ claimed h t
    → is_running job.id s ≡ false
unfolding claim_verdict
judge_row-idle c job row s t h e = ground arith

module _ (c : Claimer) (job : Job) (s : Db) where
  insert-Effect :
      (t : Db)
      → is_running job.id s ≡ false
      → 1 ≤ rows_of job.id s.live
      → t ≡ insert_attempt c job.id s
      → Effect s t
  insert-Effect t idle lives e = subst (Effect s) (sym e) (
      start c job.id (open_attempt_exists-open_count job.id s.attempts idle) lives refl refl refl
        refl)

  judged-Effect :
      (found : Option Job) (t : Db) (h : AttemptHandle)
      → first (
          select_where
            (λ row.
              (row.id == job.id) && (row.created_at == job.created_at) && not (c.row_locked row.id))
            s.live)
        ≡ found
      → (elim found [ none ↦ restore | some row ↦ judge_row c job row s ]) ≡ claimed h t
      → Effect s t
  judged-Effect none t h f e = cc
  judged-Effect (some row) t h f e =
      insert-Effect t (judge_row-idle c job row s t h e)
        (selected-rows_of _ job.id s.live row (λ x p. ground arith) f)
        (judge_row-claimed c job row s t h e)

  pub start_attempt-Effect :
      (t : Db) (h : AttemptHandle) → start_attempt c job s ≡ claimed h t → Effect s t
  unfolding start_attempt
  start_attempt-Effect t h e = judged-Effect _ t h refl e

  pub settle_start-Effects :
      (before : Db) (out : Start)
      → Effect before s
      → start_attempt c job s ≡ out
      → Effects before (settle_start before s out).1
  settle_start-Effects before restore e h = done
  settle_start-Effects before keep e h = one e
  settle_start-Effects before (claimed handle t) e h =
      after (one e) (start_attempt-Effect t handle h)

  pub settle_by_id-Effects :
      (before : Db) (out : Start)
      → Effect before s
      → start_attempt c job s ≡ out
      → Effects before (settle_by_id before out).1
  settle_by_id-Effects before restore e h = done
  settle_by_id-Effects before keep e h = done
  settle_by_id-Effects before (claimed handle t) e h =
      after (one e) (start_attempt-Effect t handle h)

pub atomic_claim_job-Effects :
    (c : Claimer) (job : Job) (s : Db) → Effects s (atomic_claim_job c job s).1
unfolding atomic_claim_job
atomic_claim_job-Effects c job s = elim (Bool-cases (ready_count job.id s == 0)) [
  | inl e ↦ rw e done
  | inr e ↦
      rw e
        (settle_start-Effects c job (delete_ready job.id s) s _ (entries refl refl refl refl) refl)
]

abbrev by_row : Claimer → ℕ → Db → Option Job → Claimed
by_row c j s row = elim row [
  | none ↦ (none, s)
  | some job ↦
      if not (is_queued job.status) || is_running j s
      then (none, s)
      else settle_by_id s (start_attempt c job (delete_blocked j (delete_ready j s)))
]

by_row-Effects : (c : Claimer) (j : ℕ) (s : Db) (row : Option Job) → Effects s (by_row c j s row).1
by_row-Effects c j s none = done
by_row-Effects c j s (some job) = elim (Bool-cases (not (is_queued job.status) || is_running j s)) [
  | inl e ↦ rw e done
  | inr e ↦ rw e (
      settle_by_id-Effects c job (delete_blocked j (delete_ready j s)) s _
        (entries refl refl refl refl) refl)
]

pub claim_job_by_id-Effects :
    (c : Claimer) (locked : Bool) (j : ℕ) (s : Db) → Effects s (claim_job_by_id c locked j s).1
unfolding claim_job_by_id
claim_job_by_id-Effects c locked j s = elim (Bool-cases (locked && ltb 0 (ready_count j s))) [
  | inl e ↦ rw e done
  | inr e ↦ rw e (by_row-Effects c j s (find_live j s))
]
