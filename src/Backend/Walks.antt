-- ===== src/Backend/Walks.antt =====
-- The walk of cascade_ancestor_status: the changes it is made of, and its end.
use sqlery.Prelude.{
  ℕ, zero, suc, ◌≡◌, ◌||◌, Option, none, some, List, [], ◌∷◌, ◌==◌, mem, arith, refl, subst,
  Bool-cases, inl, inr,
}
use sqlery.Backend.{Job, Db}
use sqlery.Backend.Ancestors.{
  ancestor_fences, no_values, find_job, overwrite, settle_ancestor, Cascade, walk_on, walk_from,
  walk, after_walk, parent_of, cascade_ancestor_status,
}
use sqlery.Backend.Complete.{update_rows}
use sqlery.Backend.Effect.{Effect, Effects, mark, done, after}
use sqlery.Backend.Finish.{Finish, unchanged, row_count, moved}
use sqlery.Backend.Places.{rows_of}
use sqlery.Backend.Recorded.{finish_in-Effect}
use sqlery.Backend.Recovery.{is_terminal}
use sqlery.Backend.Release.{all_jobs}
use sqlery.Ready.{Status}

-- Writing a status keeps the ids of the live rows.
rows_of-overwrite :
    (j c : ℕ) (status : Status) (k : ℕ) (xs : List Job)
    → rows_of k (update_rows (overwrite j c status) xs) ≡ rows_of k xs
unfolding rows_of
rows_of-overwrite j c status k [] = refl
rows_of-overwrite j c status k (x ∷ xs) = ground (arith, rows_of-overwrite j c status k xs)

settle_ancestor-Effect :
    (row : Job) (status : Status) (now : ℕ) (s t : Db)
    → settle_ancestor row status now s ≡ moved t
    → Effect s t
settle_ancestor-Effect row status now s t h = elim (Bool-cases (is_terminal status)) [
  | inl final ↦
      finish_in-Effect row.id status no_values (ancestor_fences row) now s t (rw final at h)
  | inr open_ ↦
      let same : moved
            (record s { live = update_rows (overwrite row.id row.created_at status) s.live })
          ≡ moved t =
        rw open_ at h in
      let equal : record s { live = update_rows (overwrite row.id row.created_at status) s.live }
          ≡ t =
        cc in
      subst (Effect s) equal
        (mark (λ k. rows_of-overwrite row.id row.created_at status k s.live) refl refl refl)
]

module _ (status : Status) (now : ℕ) (s : Db) where
  walk_from-Effects :
      (rest : Option ℕ → Db → Cascade) (t : Db)
      → ((next : Option ℕ) (u : Db) → Effects s u → Effects s (after_walk s (rest next u)))
      → Effects s t
      → (row : Option Job) → Effects s (after_walk s (walk_from rest status now t row))
  walk_from-Effects rest t ih e none = e
  walk_from-Effects rest t ih e (some row) = settled_row (settle_ancestor row status now t) refl
    where
      settled_row :
          (out : Finish)
          → settle_ancestor row status now t ≡ out
          → Effects s (after_walk s (walk_on rest row t out))
      settled_row unchanged h = ih row.parent_job_id t e
      settled_row row_count h = done
      settled_row (moved u) h =
          ih row.parent_job_id u (after e (settle_ancestor-Effect row status now t u h))

  walk-Effects :
      (fuel : ℕ) (seen : List ℕ) (current : Option ℕ) (t : Db)
      → Effects s t
      → Effects s (after_walk s (walk fuel seen current status now t))
  unfolding walk
  walk-Effects fuel seen none t e = e
  walk-Effects zero seen (some j) t e = done
  walk-Effects (suc fuel) seen (some j) t e = elim (Bool-cases ((j == 0) || mem j seen)) [
    | inl ends ↦ rw ends e
    | inr goes ↦ rw goes (
        walk_from-Effects (λ next u. walk fuel (j ∷ seen) next status now u) t
          (λ next u e'. walk-Effects fuel (j ∷ seen) next u e') e (find_job j (all_jobs t)))
  ]

  pub cascade_ancestor_status-Effects :
      (fuel j : ℕ) → Effects s (cascade_ancestor_status fuel j status now s)
  unfolding cascade_ancestor_status
  cascade_ancestor_status-Effects fuel j =
      walk-Effects fuel [] (parent_of (find_job j (all_jobs s))) s done
