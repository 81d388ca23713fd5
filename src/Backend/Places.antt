-- ===== src/Backend/Places.antt =====
-- How often a job stands in a table, and what the terminal transition does to that.
use sqlery.Prelude.{
  inr, ==_iff, inl, Bool-cases, subst, ap, refl, false, ℕ, suc, ◌+◌, ◌≡◌, Bool, true, not, List, [],
  ◌∷◌, ◌++◌, ◌==◌, if◌then◌else◌, arith,
}
use sqlery.Attempts.Close.{open_count-close_unfenced, open_count}
use sqlery.Backend.{Job, Db, select_where}
use sqlery.Backend.Finish.{
  straggler_outcome, move_job, history_row, finish_in, moved, finish_rows, Values, fences_hold,
  Fences,
}
use sqlery.Ready.{Status}

-- The rows of a job in a table.
unfoldable pub rows_of : ℕ → List Job → ℕ
rows_of j [] = 0
rows_of j (job ∷ jobs) = if job.id == j then suc (rows_of j jobs) else rows_of j jobs

-- The rows of a job in the live table and in history.
abbrev pub places : ℕ → Db → ℕ
places j db = rows_of j db.live + rows_of j db.history

pub rows_of-append : (j : ℕ) (xs ys : List Job) → rows_of j (xs ++ ys) ≡ rows_of j xs + rows_of j ys
unfolding rows_of
rows_of-append j [] ys = omega arith
rows_of-append j (x ∷ xs) ys = ground (arith, rows_of-append j xs ys)

-- Selecting and rejecting by a test splits a table.
rows_of-split :
    (j : ℕ) (test : Job → Bool) (xs : List Job)
    → rows_of j (select_where test xs) + rows_of j (select_where (λ x. not (test x)) xs)
      ≡ rows_of j xs
unfolding rows_of
rows_of-split j test [] = omega arith
rows_of-split j test (x ∷ xs) = ground (arith, rows_of-split j test xs)

-- What is selected passes the test.
selected :
    (test : Job → Bool) (xs : List Job) (job : Job) (rest : List Job)
    → select_where test xs ≡ job ∷ rest
    → test job ≡ true
selected test [] job rest h = cc
selected test (x ∷ xs) job rest h = ground (arith, selected test xs job rest)

-- The columns of the tables that a move leaves to the invariant: every job keeps its number of
-- places, and of the open attempts just those of the job are closed.
pub record IsMove (j : ℕ) (db db' : Db) : Type 0 where
  pub places_kept : (k : ℕ) → places k db' ≡ places k db
  pub closes :
      (k : ℕ) → open_count k db'.attempts ≡ (if j == k then 0 else open_count k db.attempts)
  pub live_left : (k : ℕ) → (j == k) ≡ false → rows_of k db'.live ≡ rows_of k db.live
  pub history_grows : rows_of j db'.history ≡ rows_of j db.history + 1

fences_hold-id :
    (db : Db) (j : ℕ) (f : Fences) (job : Job)
    → fences_hold db j f job ≡ true
    → (job.id == j) ≡ true
fences_hold-id db j f job h = ground arith

select_where-other :
    (db : Db) (j k : ℕ) (f : Fences) (xs : List Job)
    → (j == k) ≡ false
    → rows_of k (select_where (λ job. not (fences_hold db j f job)) xs) ≡ rows_of k xs
unfolding rows_of
select_where-other db j k f [] h = refl
select_where-other db j k f (x ∷ xs) h =
    ground (arith, select_where-other db j k f xs h, fences_hold-id db j f x)

one_row : (j : ℕ) (job : Job) → (job.id == j) ≡ true → rows_of j (job ∷ []) ≡ 1
unfolding rows_of
one_row j job h = ground arith

other_row :
    (j k : ℕ) (job : Job) → (job.id == j) ≡ true → (j == k) ≡ false → rows_of k (job ∷ []) ≡ 0
unfolding rows_of
other_row j k job h ne = ground arith

module _ (db : Db) (j : ℕ) (f : Fences) (status : Status) (values : Values) (now : ℕ) where
  module _ (job : Job) (e : select_where (fences_hold db j f) db.live ≡ job ∷ []) where
    matched : (job.id == j) ≡ true
    matched = fences_hold-id db j f job (selected (fences_hold db j f) db.live job [] e)

    live_loses :
        rows_of j (select_where (λ job'. not (fences_hold db j f job')) db.live) + 1
        ≡ rows_of j db.live
    live_loses = omega (
      arith,
      rows_of-split j (fences_hold db j f) db.live,
      ap (rows_of j) e,
      one_row j job matched,
    )

    history_gains :
        (k : ℕ)
        → rows_of k (db.history ++ history_row db status values now job ∷ [])
          ≡ (if j == k then rows_of k db.history + 1 else rows_of k db.history)
    history_gains k = elim (Bool-cases (j == k)) [
      | inl same ↦ rw same (
          subst
            (λ n.
              rows_of n (db.history ++ history_row db status values now job ∷ [])
              ≡ rows_of n db.history + 1)
            ((==_iff j k).0 same)
            (omega (
              arith,
              rows_of-append j db.history (history_row db status values now job ∷ []),
              one_row j (history_row db status values now job) matched,
            )))
      | inr other ↦ rw other (
          omega (
            arith,
            rows_of-append k db.history (history_row db status values now job ∷ []),
            other_row j k (history_row db status values now job) matched other,
          ))
    ]

    live_same :
        (k : ℕ)
        → (j == k) ≡ false
        → rows_of k (select_where (λ job'. not (fences_hold db j f job')) db.live)
          ≡ rows_of k db.live
    live_same k ne = select_where-other db j k f db.live ne

    places_same : (k : ℕ) → places k (move_job db j f status values now job) ≡ places k db
    places_same k = elim (Bool-cases (j == k)) [
      | inl same ↦
          subst (λ n. places n (move_job db j f status values now job) ≡ places n db)
            ((==_iff j k).0 same) (ground (arith, live_loses, history_gains j))
      | inr other ↦ ground (arith, live_same k other, history_gains k)
    ]

    move_job-IsMove : IsMove j db (move_job db j f status values now job)
    move_job-IsMove = record {
      places_kept = places_same;
      closes = λ k. open_count-close_unfenced now (straggler_outcome status) k j db.attempts;
      live_left = live_same;
      history_grows = ground (arith, history_gains j);
    }

  finish_rows-IsMove :
      (rows : List Job) (db' : Db)
      → select_where (fences_hold db j f) db.live ≡ rows
      → finish_rows db j f status values now rows ≡ moved db'
      → IsMove j db db'
  finish_rows-IsMove [] db' e h = cc
  finish_rows-IsMove (job ∷ other ∷ rest) db' e h = cc
  finish_rows-IsMove (job ∷ []) db' e h =
      let same : move_job db j f status values now job ≡ db' = cc in
      subst (IsMove j db) same (move_job-IsMove job e)

  -- A move that succeeds takes the job from the live table to history.
  pub finish_in-IsMove :
      (db' : Db) → finish_in j status values f now db ≡ moved db' → IsMove j db db'
  unfolding finish_in
  finish_in-IsMove db' h = finish_rows-IsMove (select_where (fences_hold db j f) db.live) db' refl h
