-- ===== src/Backend/WalkEnds.antt =====
-- The fuel of the walk of cascade_ancestor_status: the rows that the walk has not seen.
use sqlery.Prelude.{
  ◌⊎◌, ==_self, ==_iff, ℕ, zero, suc, ◌+◌, ◌≤◌, ◌<◌, ◌≡◌, ◌≢◌, Bool, true, false, not, ◌||◌, Option,
  none, some, List, [], ◌∷◌, ◌++◌, ◌==◌, mem, map, length, arith, refl, ap, subst, Bool-cases,
  Option-cases, inl, inr, if◌then◌else◌,
}
use sqlery.Attempts.{is_open_for}
use sqlery.Backend.{is_queued, is_open_for, Job, Db, select_where, first}
use sqlery.Backend.Ancestors.{
  ancestor_fences, no_values, find_job, overwrite, settle_ancestor, Cascade, out_of_fuel, walk_on,
  walk_from, walk, parent_of,
}
use sqlery.Backend.Complete.{update_rows}
use sqlery.Backend.Finish.{
  Finish, unchanged, row_count, moved, finish_in, finish_rows, move_job, history_row, Fences,
  Values, fences_hold,
}
use sqlery.Backend.Recovery.{is_terminal}
use sqlery.Backend.Release.{all_jobs, shown}
use sqlery.Ready.{is_queued, Status}

-- The rows whose ids the walk has not seen.
unseen : List ℕ → List Job → ℕ
unseen seen [] = 0
unseen seen (job ∷ jobs) = if mem job.id seen then unseen seen jobs else suc (unseen seen jobs)

unseen-append :
    (seen : List ℕ) (xs ys : List Job) → unseen seen (xs ++ ys) ≡ unseen seen xs + unseen seen ys
unfolding unseen
unseen-append seen [] ys = omega arith
unseen-append seen (x ∷ xs) ys = ground (arith, unseen-append seen xs ys)

unseen-split :
    (seen : List ℕ) (test : Job → Bool) (xs : List Job)
    → unseen seen (select_where test xs) + unseen seen (select_where (λ x. not (test x)) xs)
      ≡ unseen seen xs
unfolding unseen
unseen-split seen test [] = omega arith
unseen-split seen test (x ∷ xs) = ground (arith, unseen-split seen test xs)

unseen-le : (seen : List ℕ) (xs : List Job) → unseen seen xs ≤ length xs
unfolding unseen
unseen-le seen [] = omega arith
unseen-le seen (x ∷ xs) = ground (arith, unseen-le seen xs)

unseen-more : (j : ℕ) (seen : List ℕ) (xs : List Job) → unseen (j ∷ seen) xs ≤ unseen seen xs
unfolding unseen
unseen-more j seen [] = omega arith
unseen-more j seen (x ∷ xs) = ground (arith, unseen-more j seen xs)

-- A row that is found under an id that was not seen leaves the count.
unseen-found :
    (j : ℕ) (seen : List ℕ) (xs : List Job) (row : Job)
    → mem j seen ≡ false
    → find_job j xs ≡ some row
    → unseen (j ∷ seen) xs < unseen seen xs
unfolding unseen
unseen-found j seen [] row new h = cc
unseen-found j seen (x ∷ xs) row new h = elim (Bool-cases (x.id == j)) [
  | inl same ↦
      let equal : x.id ≡ j = (==_iff x.id j).0 same in
      let fresh : mem x.id seen ≡ false = rw equal new in
      let seen_now : (j == x.id) ≡ true = rw equal (==_self j) in
      rw (fresh, seen_now) (omega (arith, unseen-more j seen xs))
  | inr other ↦
      let rest : find_job j xs ≡ some row = rw other at h in
      let differs : (j == x.id) ≡ false = ground arith in
      rw differs (ground (arith, unseen-found j seen xs row new rest))
]

shown-id : (s : Db) (job : Job) → (shown s job).id ≡ job.id
shown-id s job = elim (Option-cases (first (select_where (is_open_for job.id) s.attempts))) [
  | inl idle ↦ rw (idle, shown) refl
  | inr (a, e) ↦
      rw (e, shown)
        (elim (Bool-cases (is_queued job.status)) [ inl y ↦ rw y refl | inr n ↦ rw n refl ])
]

unseen-shown :
    (seen : List ℕ) (s : Db) (xs : List Job) → unseen seen (map (shown s) xs) ≡ unseen seen xs
unfolding unseen
unseen-shown seen s [] = refl
unseen-shown seen s (x ∷ xs) = rw (shown-id s x) (ground (arith, unseen-shown seen s xs))

-- The rows of both tables that the walk has not seen.
left : List ℕ → Db → ℕ
left seen s = unseen seen s.live + unseen seen s.history

left-all_jobs : (seen : List ℕ) (s : Db) → unseen seen (all_jobs s) ≡ left seen s
unfolding left
left-all_jobs seen s =
    omega (arith, unseen-append seen (map (shown s) s.live) s.history, unseen-shown seen s s.live)

unseen-history_row :
    (seen : List ℕ) (s : Db) (status : Status) (values : Values) (now : ℕ) (job : Job)
    → unseen seen (history_row s status values now job ∷ []) ≡ unseen seen (job ∷ [])
unfolding unseen
unseen-history_row seen s status values now job = refl

-- A move keeps what is left.
left-finish_rows :
    (seen : List ℕ) (s t : Db) (j : ℕ) (f : Fences) (status : Status) (values : Values) (now : ℕ)
    (rows : List Job)
    → select_where (fences_hold s j f) s.live ≡ rows
    → finish_rows s j f status values now rows ≡ moved t
    → left seen t ≡ left seen s
unfolding left
left-finish_rows seen s t j f status values now [] e h = cc
left-finish_rows seen s t j f status values now (x ∷ y ∷ rows) e h = cc
left-finish_rows seen s t j f status values now (x ∷ []) e h =
    let same : move_job s j f status values now x ≡ t = cc in
    subst
      (λ u. unseen seen u.live + unseen seen u.history ≡ unseen seen s.live + unseen seen s.history)
      same
      (omega (
        arith,
        unseen-split seen (fences_hold s j f) s.live,
        ap (unseen seen) e,
        unseen-append seen s.history (history_row s status values now x ∷ []),
        unseen-history_row seen s status values now x,
      ))

unseen-overwrite :
    (seen : List ℕ) (j c : ℕ) (status : Status) (xs : List Job)
    → unseen seen (update_rows (overwrite j c status) xs) ≡ unseen seen xs
unfolding unseen
unseen-overwrite seen j c status [] = refl
unseen-overwrite seen j c status (x ∷ xs) = ground (arith, unseen-overwrite seen j c status xs)

left-settle_ancestor :
    (seen : List ℕ) (row : Job) (status : Status) (now : ℕ) (s t : Db)
    → settle_ancestor row status now s ≡ moved t
    → left seen t ≡ left seen s
unfolding left finish_in
left-settle_ancestor seen row status now s t h = elim (Bool-cases (is_terminal status)) [
  | inl final ↦
      left-finish_rows seen s t row.id (ancestor_fences row) status no_values now
        (select_where (fences_hold s row.id (ancestor_fences row)) s.live) refl (rw final at h)
  | inr before ↦
      let same : moved
            (record s { live = update_rows (overwrite row.id row.created_at status) s.live })
          ≡ moved t =
        rw before at h in
      let equal : record s { live = update_rows (overwrite row.id row.created_at status) s.live }
          ≡ t =
        cc in
      subst
        (λ u.
          unseen seen u.live + unseen seen u.history ≡ unseen seen s.live + unseen seen s.history)
        equal (omega (arith, unseen-overwrite seen row.id row.created_at status s.live))
]

module _ (status : Status) (now : ℕ) where
  walk_from-ends :
      (rest : Option ℕ → Db → Cascade) (seen : List ℕ) (s : Db)
      → ((next : Option ℕ) (u : Db) → left seen u ≡ left seen s → rest next u ≢ out_of_fuel)
      → (row : Option Job) → walk_from rest status now s row ≢ out_of_fuel
  walk_from-ends rest seen s ih none = λ e. cc
  walk_from-ends rest seen s ih (some row) = ends (settle_ancestor row status now s) refl
    where
      ends :
          (out : Finish)
          → settle_ancestor row status now s ≡ out
          → walk_on rest row s out ≢ out_of_fuel
      ends unchanged h = ih row.parent_job_id s refl
      ends row_count h = λ e. cc
      ends (moved u) h = ih row.parent_job_id u (left-settle_ancestor seen row status now s u h)

  found-left :
      (j : ℕ) (seen : List ℕ) (s : Db)
      → mem j seen ≡ false
      → (row : Option Job) → find_job j (all_jobs s) ≡ row
      → (row ≡ none) ⊎ (left (j ∷ seen) s < left seen s)
  found-left j seen s new none e = inl refl
  found-left j seen s new (some row) e = inr (
      omega (
        arith,
        unseen-found j seen (all_jobs s) row new e,
        left-all_jobs seen s,
        left-all_jobs (j ∷ seen) s,
      ))

  walk-ends :
      (fuel : ℕ) (seen : List ℕ) (current : Option ℕ) (s : Db)
      → left seen s < fuel
      → walk fuel seen current status now s ≢ out_of_fuel
  unfolding walk
  walk-ends fuel seen none s h = λ e. cc
  walk-ends zero seen (some j) s h = absurd (omega arith)
  walk-ends (suc fuel) seen (some j) s h = elim (Bool-cases ((j == 0) || mem j seen)) [
    | inl ends ↦ rw ends (λ e. cc)
    | inr goes ↦ rw goes (elim (found-left j seen s (ground arith) (find_job j (all_jobs s)) refl) [
      | inl missing ↦ rw missing (λ e. cc)
      | inr less ↦
          walk_from-ends (λ next u. walk fuel (j ∷ seen) next status now u) (j ∷ seen) s
            (λ next u same. walk-ends fuel (j ∷ seen) next u (omega (arith, same, less)))
            (find_job j (all_jobs s))
    ])
  ]

  -- With more fuel than there are rows in the live table and in history, the walk over the
  -- ancestors of a job ends by itself, also where the parents form a cycle.
  pub walk-ne-out_of_fuel :
      (fuel j : ℕ) (s : Db)
      → length s.live + length s.history < fuel
      → walk fuel [] (parent_of (find_job j (all_jobs s))) status now s ≢ out_of_fuel
  unfolding left
  walk-ne-out_of_fuel fuel j s h =
      walk-ends fuel [] (parent_of (find_job j (all_jobs s))) s
        (omega (arith, unseen-le [] s.live, unseen-le [] s.history))
