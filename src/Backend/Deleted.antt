-- ===== src/Backend/Deleted.antt =====
-- One batch of cleanup_jobs in fastapi_sqlery/backend.py.
use sqlery.Prelude.{
  ℕ, suc, ◌+◌, ◌<◌, ◌≡◌, Bool, true, not, List, [], ◌∷◌, mem, length, arith, refl, ap, Bool-cases,
  inl, inr, IsIn, here, there, ==_self,
}
use sqlery.Attempts.{Attempt, is_open, count_where}
use sqlery.Attempts.Close.{open_count}
use sqlery.Backend.{Job, select_where, job_ids}
use sqlery.Backend.Cleanup.{insert_row, sort_rows, comes_first, is_deleted, is_attempt_deleted}

length-insert_row : (job : Job) (xs : List Job) → length (insert_row job xs) ≡ suc (length xs)
unfolding insert_row
length-insert_row job [] = refl
length-insert_row job (x ∷ xs) = ground (arith, length-insert_row job xs)

past : (x job y : Job) (ys : List Job) → IsIn x (job ∷ ys) → IsIn x (job ∷ y ∷ ys)
past x job y ys here = here
past x job y ys (there p) = there (there p)

carried :
    (x y : Job) (ys : List Job) {zs : List Job}
    → IsIn x (y ∷ zs)
    → (IsIn x zs → IsIn x ys)
    → IsIn x (y ∷ ys)
carried x y ys here rest = here
carried x y ys (there p) rest = there (rest p)

swap :
    (x job y : Job) (ys : List Job) {zs : List Job}
    → IsIn x (y ∷ zs)
    → (IsIn x zs → IsIn x (job ∷ ys))
    → IsIn x (job ∷ y ∷ ys)
swap x job y ys here rest = there here
swap x job y ys (there p) rest = past x job y ys (rest p)

insert_row-IsIn : (x job : Job) (xs : List Job) → IsIn x (insert_row job xs) → IsIn x (job ∷ xs)
unfolding insert_row
insert_row-IsIn x job [] p = p
insert_row-IsIn x job (y ∷ ys) p = elim (Bool-cases (comes_first job y)) [
  | inl first ↦ rw first at p
  | inr later ↦ swap x job y ys (rw later at p) (insert_row-IsIn x job ys)
]

pub sort_rows-IsIn : (x : Job) (xs : List Job) → IsIn x (sort_rows xs) → IsIn x xs
unfolding sort_rows
sort_rows-IsIn x [] p = p
sort_rows-IsIn x (y ∷ ys) p =
    carried x y ys (insert_row-IsIn x y (sort_rows ys) p) (sort_rows-IsIn x ys)

pub length-sort_rows : (xs : List Job) → length (sort_rows xs) ≡ length xs
unfolding sort_rows
length-sort_rows [] = refl
length-sort_rows (x ∷ xs) = omega (arith, length-insert_row x (sort_rows xs), length-sort_rows xs)

-- Deleted rows match, so the rows that do not are left as they are.
pub others_left :
    (ids : List ℕ) (test : Job → Bool) (xs : List Job)
    → select_where (λ x. not (test x)) (select_where (λ x. not (is_deleted ids test x)) xs)
      ≡ select_where (λ x. not (test x)) xs
others_left ids test [] = refl
others_left ids test (x ∷ xs) = elim (Bool-cases (test x)) [
  | inl y ↦ elim (Bool-cases (mem x.id ids)) [
    | inl m ↦ rw (y, m) (others_left ids test xs)
    | inr m ↦ rw (y, m) (rw y (others_left ids test xs))
  ]
  | inr n ↦ elim (Bool-cases (mem x.id ids)) [
    | inl m ↦ rw (n, m) (rw n (ap (λ u. x ∷ u) (others_left ids test xs)))
    | inr m ↦ rw (n, m) (rw n (ap (λ u. x ∷ u) (others_left ids test xs)))
  ]
]

-- The rows that match and stay.
pub deleted-split :
    (ids : List ℕ) (test : Job → Bool) (xs : List Job)
    → length (select_where test (select_where (λ x. not (is_deleted ids test x)) xs))
        + length (select_where (is_deleted ids test) xs)
      ≡ length (select_where test xs)
deleted-split ids test [] = omega arith
deleted-split ids test (x ∷ xs) = elim (Bool-cases (test x)) [
  | inl y ↦ elim (Bool-cases (mem x.id ids)) [
    | inl m ↦ rw (y, m) (omega (arith, deleted-split ids test xs))
    | inr m ↦ rw (y, m) (rw y (omega (arith, deleted-split ids test xs)))
  ]
  | inr n ↦ elim (Bool-cases (mem x.id ids)) [
    | inl m ↦ rw (n, m) (rw n (omega (arith, deleted-split ids test xs)))
    | inr m ↦ rw (n, m) (rw n (omega (arith, deleted-split ids test xs)))
  ]
]

pub some_deleted :
    (ids : List ℕ) (test : Job → Bool) (x : Job) (xs : List Job)
    → IsIn x xs
    → is_deleted ids test x ≡ true
    → 0 < length (select_where (is_deleted ids test) xs)
some_deleted ids test x [] p e = elim p [ ]
some_deleted ids test x (y ∷ ys) here e = rw e (omega arith)
some_deleted ids test x (y ∷ ys) (there p) e = elim (Bool-cases (is_deleted ids test y)) [
  | inl d ↦ rw d (omega arith)
  | inr k ↦ rw k (some_deleted ids test x ys p e)
]

pub mem-job_ids : (x : Job) (xs : List Job) → IsIn x xs → mem x.id (job_ids xs) ≡ true
mem-job_ids x [] p = elim p [ ]
mem-job_ids x (y ∷ ys) here = ground (arith, ==_self y.id)
mem-job_ids x (y ∷ ys) (there p) = ground (arith, mem-job_ids x ys p)

-- The open attempts and the tables of live jobs are not touched.
pub open_count-kept :
    (j : ℕ) (ids : List ℕ) (as_ : List Attempt)
    → open_count j (select_where (λ a. not (is_attempt_deleted ids a)) as_) ≡ open_count j as_
unfolding count_where
open_count-kept j ids [] = refl
open_count-kept j ids (a ∷ as_) = elim (Bool-cases (is_open a)) [
  | inl open_one ↦ elim (Bool-cases (mem a.job_id ids)) [
    | inl m ↦ rw (m, open_one) (ground (arith, open_one, open_count-kept j ids as_))
    | inr m ↦ rw (m, open_one) (ground (arith, open_one, open_count-kept j ids as_))
  ]
  | inr ended ↦ elim (Bool-cases (mem a.job_id ids)) [
    | inl m ↦ rw (m, ended) (ground (arith, ended, open_count-kept j ids as_))
    | inr m ↦ rw (m, ended) (ground (arith, ended, open_count-kept j ids as_))
  ]
]
