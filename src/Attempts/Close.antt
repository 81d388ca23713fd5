-- ===== src/Attempts/Close.antt =====
-- What closing attempts does to the open ones.
use sqlery.Prelude.{
  ℕ, ◌+◌, ◌≤◌, ◌≡◌, refl, Bool, false, List, [], ◌∷◌, ◌++◌, ◌==◌, if◌then◌else◌, arith,
}
use sqlery.Attempts.{
  Attempt, AttemptHandle, Outcome, open_attempt_exists, update_where, count_where, closed, is_exact,
  is_open_for, close_exact,
}

-- How many attempts are open for a job.
abbrev pub open_count : ℕ → List Attempt → ℕ
open_count j = count_where (is_open_for j)

pub open_attempt_exists-open_count :
    (j : ℕ) (as_ : List Attempt) → open_attempt_exists j as_ ≡ false → open_count j as_ ≡ 0
unfolding open_attempt_exists count_where
open_attempt_exists-open_count j [] h = refl
open_attempt_exists-open_count j (a ∷ as_) h = ground (arith, open_attempt_exists-open_count j as_)

-- Closing never opens an attempt.
pub open_count-close_le :
    (test : Attempt → Bool) (now : ℕ) (o : Outcome) (j : ℕ) (as_ : List Attempt)
    → open_count j (update_where test (closed now o) as_) ≤ open_count j as_
unfolding count_where update_where
open_count-close_le test now o j [] = omega arith
open_count-close_le test now o j (a ∷ as_) = ground (arith, open_count-close_le test now o j as_)

pub open_count-close_unfenced :
    (now : ℕ) (o : Outcome) (j k : ℕ) (as_ : List Attempt)
    → open_count j (update_where (is_open_for k) (closed now o) as_)
      ≡ (if k == j then 0 else open_count j as_)
unfolding count_where update_where
open_count-close_unfenced now o j k [] = ground arith
open_count-close_unfenced now o j k (a ∷ as_) =
    ground (arith, open_count-close_unfenced now o j k as_)

-- After a fenced close no open attempt matches the handle.
pub is_exact-close_exact :
    (h : AttemptHandle) (o : Outcome) (now : ℕ) (as_ : List Attempt)
    → count_where (is_exact h) (close_exact h o now as_) ≡ 0
unfolding count_where update_where
is_exact-close_exact h o now [] = refl
is_exact-close_exact h o now (a ∷ as_) = ground (arith, is_exact-close_exact h o now as_)

-- Closing any attempts keeps a handle without a match without one.
pub is_exact-close_le :
    (h : AttemptHandle) (test : Attempt → Bool) (o : Outcome) (now : ℕ) (as_ : List Attempt)
    → count_where (is_exact h) (update_where test (closed now o) as_) ≤ count_where (is_exact h) as_
unfolding count_where update_where
is_exact-close_le h test o now [] = omega arith
is_exact-close_le h test o now (a ∷ as_) = ground (arith, is_exact-close_le h test o now as_)

pub count_where-append :
    (test : Attempt → Bool) (xs ys : List Attempt)
    → count_where test (xs ++ ys) ≡ count_where test xs + count_where test ys
unfolding count_where
count_where-append test [] ys = omega arith
count_where-append test (x ∷ xs) ys = ground (arith, count_where-append test xs ys)
