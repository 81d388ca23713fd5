-- ===== src/Backend/Kept.antt =====
-- What the transactions of Backend/Trace, the cleanup and the replacement of named jobs keep of a job.
use sqlery.Prelude.{
  refl, not, false, ◌≡◌, Bool, List, [], ◌∷◌, ℕ, ◌≤◌, arith, Bool-cases, inl, inr, ◌==◌, subst,
  ==_iff,
}
use sqlery.Backend.{not, select_where, false, Bool, Job, List, [], Db}
use sqlery.Backend.Cleanup.{is_deleted, delete_history_batch}
use sqlery.Backend.Effect.{Effect, Effects, entries, start, close, move, mark, add, done, after}
use sqlery.Backend.Places.{rows_of, places, rows_of-append, IsMove}
use sqlery.Backend.Release.{replace_named}
use sqlery.Backend.Trace.{Step, Step-Effects}

-- What the tables `s` hold of a job is kept in `t`.
abbrev pub Kept : (s t : Db) → ℕ → Type 0
Kept s t j = (places j s ≤ places j t) × (rows_of j s.history ≤ rows_of j t.history)

IsMove-history :
    (i : ℕ) (s t : Db) → IsMove i s t → (j : ℕ) → rows_of j s.history ≤ rows_of j t.history
IsMove-history i s t m j = elim (Bool-cases (i == j)) [
  | inl same ↦
      subst (λ n. rows_of n s.history ≤ rows_of n t.history) ((==_iff i j).0 same)
        (omega (arith, m.history_grows))
  | inr other ↦ omega (arith, m.places_kept j, m.live_left j other)
]

Effect-Kept : {s t : Db} → Effect s t → (j : ℕ) → Kept s t j
Effect-Kept (entries l h a n) j = (rw (l, h) (omega arith), rw h (omega arith))
Effect-Kept (start c i idle lives l h a n) j = (rw (l, h) (omega arith), rw h (omega arith))
Effect-Kept (close l h c) j = (rw (l, h) (omega arith), rw h (omega arith))
Effect-Kept {s} {t} (move i m c) j = (omega (arith, m.places_kept j), IsMove-history i s t m j)
Effect-Kept (mark l h a n) j = (rw h (omega (arith, l j)), rw h (omega arith))
Effect-Kept {s} (add job fresh l h a n) j =
    (rw (l, h, rows_of-append j s.live (job ∷ [])) (omega arith), rw h (omega arith))

Effects-Kept : {s t : Db} → Effects s t → (j : ℕ) → Kept s t j
Effects-Kept done j = (omega arith, omega arith)
Effects-Kept (after es e) j =
    let before = Effects-Kept es j in
    let last = Effect-Kept e j in (omega (arith, before.0, last.0), omega (arith, before.1, last.1))

-- A sequence of transactions, of batches of a cleanup and of replacements of named jobs, in which no
-- batch deletes a row of job `j` and no replacement names one.
pub data Lives (j : ℕ) (s : Db) : Db → Type 0 where
  starts : Lives j s s
  runs : {t u : Db} → Lives j s t → Step t u → Lives j s u
  cleans :
      {t : Db} (ids : List ℕ) (test : Job → Bool)
      → Lives j s t
      → ((job : Job) → job.id ≡ j → is_deleted ids test job ≡ false)
      → Lives j s (delete_history_batch ids test t).1
  replaces :
      {t : Db} (named : Job → Bool)
      → Lives j s t
      → ((job : Job) → job.id ≡ j → named job ≡ false)
      → Lives j s (replace_named named t)

rows_of-deleted :
    (j : ℕ) (test : Job → Bool) (xs : List Job)
    → ((job : Job) → job.id ≡ j → test job ≡ false)
    → rows_of j (select_where (λ job. not (test job)) xs) ≡ rows_of j xs
unfolding rows_of
rows_of-deleted j test [] spared = refl
rows_of-deleted j test (x ∷ xs) spared = elim (Bool-cases (x.id == j)) [
  | inl own ↦
      let kept = spared x ((==_iff x.id j).0 own) in
      rw (own, kept) (ground (arith, own, rows_of-deleted j test xs spared))
  | inr other ↦ ground (arith, other, rows_of-deleted j test xs spared)
]

delete_history_batch-Kept :
    (j : ℕ) (ids : List ℕ) (test : Job → Bool) (s : Db)
    → ((job : Job) → job.id ≡ j → is_deleted ids test job ≡ false)
    → Kept s (delete_history_batch ids test s).1 j
unfolding delete_history_batch
delete_history_batch-Kept j ids test s spared =
    let same = rows_of-deleted j (is_deleted ids test) s.history spared in
    (omega (arith, same), omega (arith, same))

replace_named-Kept :
    (j : ℕ) (named : Job → Bool) (s : Db)
    → ((job : Job) → job.id ≡ j → named job ≡ false)
    → Kept s (replace_named named s) j
unfolding replace_named
replace_named-Kept j named s spared =
    let same = rows_of-deleted j named s.live spared in (omega (arith, same), omega arith)

Kept-trans : (j : ℕ) (s t u : Db) → Kept s t j → Kept t u j → Kept s u j
Kept-trans j s t u a b = (omega (arith, a.0, b.0), omega (arith, a.1, b.1))

-- Whatever transactions, batches of a cleanup and replacements of named jobs follow each other: a job
-- of which no batch deletes a row, and that no replacement names, stays in the live table or in
-- history if it stands there, and in history if it stands there.
pub Lives-Kept : {j : ℕ} {s t : Db} → Lives j s t → Kept s t j
Lives-Kept starts = (omega arith, omega arith)
Lives-Kept {j} {s} (runs {t} {u} before x) =
    Kept-trans j s t u (Lives-Kept before) (Effects-Kept (Step-Effects x) j)
Lives-Kept {j} {s} (cleans {t} ids test before spared) =
    Kept-trans j s t (delete_history_batch ids test t).1 (Lives-Kept before)
      (delete_history_batch-Kept j ids test t spared)
Lives-Kept {j} {s} (replaces {t} named before spared) =
    Kept-trans j s t (replace_named named t) (Lives-Kept before)
      (replace_named-Kept j named t spared)
