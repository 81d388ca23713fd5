-- ===== src/Backend/Cleaned.antt =====
-- What cleanup_jobs of fastapi_sqlery/backend.py deletes.
use sqlery.Prelude.{
  ℕ, zero, suc, ◌+◌, ◌<◌, ◌≡◌, Bool, true, not, List, [], ◌∷◌, length, take, arith, refl, sym, ◌∙◌,
  subst, ap, Bool-cases, inl, inr, IsIn, here, there, ==_self,
}
use sqlery.Attempts.Close.{open_count}
use sqlery.Backend.{Job, Db, select_where, job_ids}
use sqlery.Backend.Cleanup.{
  Policy, matches_policy, sort_rows, is_deleted, delete_history_batch, Cleaned, out_of_fuel,
  cleaned, after_batch, cleanup_loop, cleanup_jobs,
}
use sqlery.Backend.Deleted.{
  sort_rows-IsIn, length-sort_rows, others_left, deleted-split, some_deleted, open_count-kept,
}
use sqlery.Backend.Repaired.{selected-IsIn}

-- What a cleanup leaves of the tables `s`: the live jobs and the entries, the rows of history that the
-- policy does not match, in their order, and every open attempt.
pub record IsCleaned (test : Job → Bool) (s t : Db) : Type 0 where
  pub live_same : t.live ≡ s.live
  pub ready_same : t.ready ≡ s.ready
  pub blocked_same : t.blocked ≡ s.blocked
  pub others_same :
      select_where (λ x. not (test x)) t.history ≡ select_where (λ x. not (test x)) s.history
  pub open_same : (j : ℕ) → open_count j t.attempts ≡ open_count j s.attempts

-- The loop ended, having deleted every row that matches, and as many as it reports.
abbrev pub IsDone : (test : Job → Bool) → (total : ℕ) → Db → Cleaned → Type 0
IsDone test total s out_of_fuel = ⊥
IsDone test total s (cleaned n t) =
    (t.history ≡ select_where (λ x. not (test x)) s.history)
    × (n ≡ total + length (select_where test s.history))
    × IsCleaned test s t

all_others :
    (test : Job → Bool) (xs : List Job)
    → length (select_where test xs) ≡ 0
    → xs ≡ select_where (λ x. not (test x)) xs
all_others test [] e = refl
all_others test (x ∷ xs) e = elim (Bool-cases (test x)) [
  | inl y ↦
      let bad : suc (length (select_where test xs)) ≡ 0 = rw y at e in absurd (omega (arith, bad))
  | inr n ↦ rw n (ap (λ u. x ∷ u) (all_others test xs (rw n at e)))
]

IsIn-take : (x : Job) (n : ℕ) (xs : List Job) → IsIn x (take n xs) → IsIn x xs
IsIn-take x zero xs p = elim p [ ]
IsIn-take x (suc n) [] p = elim p [ ]
IsIn-take x (suc n) (y ∷ ys) here = here
IsIn-take x (suc n) (y ∷ ys) (there p) = there (IsIn-take x n ys p)

take_none : (n : ℕ) (xs : List Job) → 0 < n → take n xs ≡ [] → length xs ≡ 0
take_none zero xs h e = absurd (omega arith)
take_none (suc n) [] h e = refl
take_none (suc n) (x ∷ xs) h e = cc

module _ (batch : ℕ) (positive : 0 < batch) (test : Job → Bool) where
  -- The tables after a batch.
  abbrev left_by : List ℕ → Db → Db
  left_by ids s = (delete_history_batch ids test s).1

  cleaned_more :
      (total n : ℕ) (ids : List ℕ) (s : Db) (out : Cleaned)
      → n ≡ length (select_where (is_deleted ids test) s.history)
      → IsDone test (total + n) (left_by ids s) out
      → IsDone test total s out
  unfolding delete_history_batch
  cleaned_more total n ids s out_of_fuel e done = done
  cleaned_more total n ids s (cleaned m u) e (rows, count, rest) = (
    rows ∙ others_left ids test s.history,
    omega (arith, count, e, deleted-split ids test s.history),
    record {
      live_same = rest.live_same;
      ready_same = rest.ready_same;
      blocked_same = rest.blocked_same;
      others_same = rest.others_same ∙ others_left ids test s.history;
      open_same = λ j. rest.open_same j ∙ open_count-kept j ids s.attempts;
    },
  )

  module _ (fuel total : ℕ) (s : Db) (h : length (select_where test s.history) < suc fuel)
      (ih : (total' : ℕ) (t : Db)
        → length (select_where test t.history) < fuel
        → IsDone test total' t (cleanup_loop batch test fuel total' t)) where
    abbrev goes_on : ℕ → Db → Cleaned
    goes_on total' t = cleanup_loop batch test fuel total' t

    by_count :
        (ids : List ℕ) (n : ℕ)
        → n ≡ length (select_where (is_deleted ids test) s.history)
        → 0 < n
        → IsDone test total s (after_batch batch test goes_on total (n, left_by ids s))
    unfolding delete_history_batch
    by_count ids zero e more = absurd (omega arith)
    by_count ids (suc n) e more =
        cleaned_more total (suc n) ids s (goes_on (total + suc n) (left_by ids s)) e (
          ih (total + suc n) (left_by ids s)
            (omega (arith, h, e, deleted-split ids test s.history)))

    by_batch :
        (xs : List Job)
        → take batch (sort_rows (select_where test s.history)) ≡ xs
        → IsDone test total s (elim (job_ids xs) as (λ _. Cleaned) [
          | [] ↦ cleaned total s
          | j ∷ ids ↦ after_batch batch test goes_on total (delete_history_batch (j ∷ ids) test s)
        ])
    unfolding delete_history_batch
    by_batch [] e =
        let empty : length (select_where test s.history) ≡ 0 =
          sym (length-sort_rows (select_where test s.history))
          ∙ take_none batch (sort_rows (select_where test s.history)) positive e in
        (
          all_others test s.history empty,
          omega (arith, empty),
          record {
            live_same = refl;
            ready_same = refl;
            blocked_same = refl;
            others_same = refl;
            open_same = λ j. refl;
          },
        )
    by_batch (x ∷ xs) e =
        let member : IsIn x (take batch (sort_rows (select_where test s.history))) =
          subst (IsIn x) (sym e) here in
        let found = selected-IsIn test x s.history (
          sort_rows-IsIn x (select_where test s.history)
            (IsIn-take x batch (sort_rows (select_where test s.history)) member)) in
        let hit : is_deleted (x.id ∷ job_ids xs) test x ≡ true =
          ground (arith, found.0, ==_self x.id) in
        by_count (x.id ∷ job_ids xs)
          (length (select_where (is_deleted (x.id ∷ job_ids xs) test) s.history)) refl
          (some_deleted (x.id ∷ job_ids xs) test x s.history found.1 hit)

  cleanup_loop-IsDone :
      (fuel total : ℕ) (s : Db)
      → length (select_where test s.history) < fuel
      → IsDone test total s (cleanup_loop batch test fuel total s)
  unfolding cleanup_loop
  cleanup_loop-IsDone zero total s h = absurd (omega arith)
  cleanup_loop-IsDone (suc fuel) total s h =
      by_batch fuel total s h (cleanup_loop-IsDone fuel)
        (take batch (sort_rows (select_where test s.history))) refl

-- With more fuel than rows of history match the policy, the batches end. Just those rows are deleted,
-- the call reports how many they were, the others keep their order, and neither the live jobs nor
-- their entries nor any open attempt is touched.
pub cleanup_jobs-IsDone :
    (fuel : ℕ) (p : Policy) (s : Db)
    → length (select_where (matches_policy p) s.history) < fuel
    → IsDone (matches_policy p) 0 s (cleanup_jobs fuel p s)
unfolding cleanup_jobs
cleanup_jobs-IsDone fuel p s h = cleanup_loop-IsDone 500 (omega arith) (matches_policy p) fuel 0 s h
