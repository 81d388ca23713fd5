-- ===== src/Backend/Repairs.antt =====
-- The transaction of the sweep of fastapi_sqlery/backend.py, maintain_ready_queue: what it does to the
-- jobs, and to the times of the entries.
use sqlery.Prelude.{
  here, there, IsIn, ℕ, ◌≡◌, Bool, true, ◌||◌, List, [], ◌∷◌, ◌++◌, String, refl, sym, ap, ◌∙◌,
  arith, Bool-cases, inl, inr, ◌⊎◌, ==_self,
}
use sqlery.Backend.{Job, ReadyEntry, Db, is_running}
use sqlery.Backend.Effect.{Effects, entries, done, after}
use sqlery.Backend.Release.{write_ready, ready_values, has_entry_in}
use sqlery.Backend.Requeued.{write_ready-Effect}
use sqlery.Backend.Sweep.{
  is_waiting, has_ready, has_blocked_row, write_ready_all, is_entry_live, lost_jobs, repair,
}

write_ready_all-Effects :
    (slot : ℕ) (jobs : List Job) (s t : Db) → Effects s t → Effects s (write_ready_all slot jobs t)
unfolding write_ready_all
write_ready_all-Effects slot [] s t e = e
write_ready_all-Effects slot (job ∷ jobs) s t e =
    write_ready_all-Effects slot jobs s (write_ready slot job t)
      (after e (write_ready-Effect slot job t))

pub repair-Effects :
    (slot : ℕ) (names : List String) (limit : ℕ) (locked : ReadyEntry → Bool) (s : Db)
    → Effects s (repair slot names limit locked s)
unfolding repair
repair-Effects slot names limit locked s =
    after (write_ready_all-Effects slot (lost_jobs slot names limit s) s s done)
      (entries refl refl refl refl)

-- An entry of a job has the time of creation of every live row of the job.
abbrev pub IsMatching : List Job → List ReadyEntry → Type 0
IsMatching live es =
    (job : Job)
    → IsIn job live
    → (e : ReadyEntry) → IsIn e es
    → e.job_id ≡ job.id
    → e.created_at ≡ job.created_at

-- Every job that waits has a ready entry or a blocked one, and every ready entry is that of a job that
-- waits.
pub record IsRepaired (t : Db) : Type 0 where
  pub has_entry :
      (job : Job)
      → IsIn job t.live
      → is_waiting t job ≡ true
      → (has_ready job.id t.ready || has_blocked_row job.id t.blocked) ≡ true
  pub is_live : (e : ReadyEntry) → IsIn e t.ready → is_entry_live t t.live e ≡ true

-- The live rows of an id agree on its time of creation.
abbrev pub IsOneTime : List Job → Type 0
IsOneTime live = (x y : Job) → IsIn x live → IsIn y live → x.id ≡ y.id → x.created_at ≡ y.created_at

appended-IsIn :
    (x y : ReadyEntry) (xs : List ReadyEntry) → IsIn x (xs ++ y ∷ []) → IsIn x xs ⊎ (x ≡ y)
appended-IsIn x y [] here = inr refl
appended-IsIn x y [] (there p) = elim p [ ]
appended-IsIn x y (z ∷ zs) here = inl here
appended-IsIn x y (z ∷ zs) (there p) = elim (appended-IsIn x y zs p) [
  | inl q ↦ inl (there q)
  | inr e ↦ inr e
]

write_ready-IsMatching :
    (slot : ℕ) (live : List Job) (row : Job) (s : Db)
    → IsOneTime live
    → IsIn row live
    → IsMatching live s.ready
    → IsMatching live (write_ready slot row s).ready
unfolding write_ready
write_ready-IsMatching slot live row s alike p m = elim (Bool-cases (is_running row.id s)) [
  | inl y ↦ rw y m
  | inr n ↦ rw n (elim (Bool-cases (has_entry_in slot row.id s.ready)) [
    | inl y ↦ rw y m
    | inr new ↦ rw new (λ job q e r same. elim (appended-IsIn e (ready_values slot row) s.ready r) [
      | inl old ↦ m job q e old same
      | inr added ↦
          let ids : row.id ≡ job.id = ap (λ u. u.job_id) (sym added) ∙ same in
          ap (λ u. u.created_at) added ∙ alike row job p q ids
    ])
  ])
]

pub write_ready_all-IsMatching :
    (slot : ℕ) (live jobs : List Job) (s : Db)
    → IsOneTime live
    → ((x : Job) → IsIn x jobs → IsIn x live)
    → IsMatching live s.ready
    → IsMatching live (write_ready_all slot jobs s).ready
unfolding write_ready_all
write_ready_all-IsMatching slot live [] s alike within m = m
write_ready_all-IsMatching slot live (job ∷ jobs) s alike within m =
    write_ready_all-IsMatching slot live jobs (write_ready slot job s) alike
      (λ x p. within x (there p)) (write_ready-IsMatching slot live job s alike (within job here) m)

-- A job that waits keeps its entries alive.
pub is_entry_live-waiting :
    (db : Db) (rows : List Job) (job : Job) (e : ReadyEntry)
    → IsIn job rows
    → is_waiting db job ≡ true
    → e.job_id ≡ job.id
    → e.created_at ≡ job.created_at
    → is_entry_live db rows e ≡ true
unfolding is_entry_live
is_entry_live-waiting db [] job e p w i c = elim p [ ]
is_entry_live-waiting db (x ∷ xs) job e here w i c =
    ground (arith, w, i, c, ==_self job.id, ==_self job.created_at)
is_entry_live-waiting db (x ∷ xs) job e (there p) w i c =
    ground (arith, is_entry_live-waiting db xs job e p w i c)
