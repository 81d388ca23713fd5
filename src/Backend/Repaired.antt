-- ===== src/Backend/Repaired.antt =====
-- The statements of the sweep: what they keep of the ready entries.
use sqlery.Prelude.{
  here, there, IsIn, ℕ, ◌<◌, ◌≡◌, Bool, true, false, not, ◌||◌, List, [], ◌∷◌, ◌++◌, ◌==◌, refl,
  ◌∙◌, arith, Bool-cases, inl, inr, ==_self,
}
use sqlery.Backend.{Job, ReadyEntry, Db, select_where, is_running}
use sqlery.Backend.Release.{write_ready, ready_values, has_entry_in}
use sqlery.Backend.Sweep.{has_ready, write_ready_all, is_entry, delete_entry, delete_entries}

-- What has to be the same for a job to wait.
pub record Same (s t : Db) : Type 0 where
  pub live_same : t.live ≡ s.live
  pub blocked_same : t.blocked ≡ s.blocked
  pub attempts_same : t.attempts ≡ s.attempts

write_ready-Same : (slot : ℕ) (job : Job) (s : Db) → Same s (write_ready slot job s)
unfolding write_ready
write_ready-Same slot job s = elim (Bool-cases (is_running job.id s)) [
  | inl y ↦ rw y (record { live_same = refl; blocked_same = refl; attempts_same = refl })
  | inr n ↦ rw n (elim (Bool-cases (has_entry_in slot job.id s.ready)) [
    | inl y ↦ rw y (record { live_same = refl; blocked_same = refl; attempts_same = refl })
    | inr m ↦ rw m (record { live_same = refl; blocked_same = refl; attempts_same = refl })
  ])
]

pub write_ready_all-Same :
    (slot : ℕ) (jobs : List Job) (s : Db) → Same s (write_ready_all slot jobs s)
unfolding write_ready_all
write_ready_all-Same slot [] s = record {
  live_same = refl;
  blocked_same = refl;
  attempts_same = refl;
}
write_ready_all-Same slot (job ∷ jobs) s =
    let one_more = write_ready-Same slot job s in
    let rest = write_ready_all-Same slot jobs (write_ready slot job s) in
    record {
      live_same = rest.live_same ∙ one_more.live_same;
      blocked_same = rest.blocked_same ∙ one_more.blocked_same;
      attempts_same = rest.attempts_same ∙ one_more.attempts_same;
    }

-- The entries that a sweep reads or writes.
has_ready-append :
    (j : ℕ) (xs ys : List ReadyEntry) → has_ready j (xs ++ ys) ≡ has_ready j xs || has_ready j ys
unfolding has_ready
has_ready-append j [] ys = refl
has_ready-append j (x ∷ xs) ys = ground (arith, has_ready-append j xs ys)

has_entry_in-has_ready :
    (slot j : ℕ) (es : List ReadyEntry)
    → slot < 3
    → has_entry_in slot j es ≡ true
    → has_ready j es ≡ true
unfolding has_ready
has_entry_in-has_ready slot j [] h e = cc
has_entry_in-has_ready slot j (x ∷ xs) h e = ground (arith, has_entry_in-has_ready slot j xs h)

-- An entry that is there stays, and that of the job itself is there.
write_ready-keeps :
    (slot j : ℕ) (job : Job) (s : Db)
    → has_ready j s.ready ≡ true
    → has_ready j (write_ready slot job s).ready ≡ true
unfolding write_ready
write_ready-keeps slot j job s h = elim (Bool-cases (is_running job.id s)) [
  | inl y ↦ rw y h
  | inr n ↦ rw n (elim (Bool-cases (has_entry_in slot job.id s.ready)) [
    | inl y ↦ rw y h
    | inr m ↦ rw m (ground (arith, h, has_ready-append j s.ready (ready_values slot job ∷ [])))
  ])
]

write_ready-has_ready :
    (slot : ℕ) (job : Job) (s : Db)
    → slot < 3
    → is_running job.id s ≡ false
    → has_ready job.id (write_ready slot job s).ready ≡ true
unfolding write_ready has_ready
write_ready-has_ready slot job s h idle =
    rw idle (elim (Bool-cases (has_entry_in slot job.id s.ready)) [
      | inl y ↦ rw y (has_entry_in-has_ready slot job.id s.ready h y)
      | inr m ↦ rw m (
          ground (
            arith,
            h,
            ==_self job.id,
            has_ready-append job.id s.ready (ready_values slot job ∷ []),
          ))
    ])

pub write_ready_all-keeps :
    (slot j : ℕ) (jobs : List Job) (s : Db)
    → has_ready j s.ready ≡ true
    → has_ready j (write_ready_all slot jobs s).ready ≡ true
unfolding write_ready_all
write_ready_all-keeps slot j [] s h = h
write_ready_all-keeps slot j (job ∷ jobs) s h =
    write_ready_all-keeps slot j jobs (write_ready slot job s) (write_ready-keeps slot j job s h)

pub write_ready_all-has_ready :
    (slot : ℕ) (jobs : List Job) (s : Db) (job : Job)
    → slot < 3
    → IsIn job jobs
    → is_running job.id s ≡ false
    → has_ready job.id (write_ready_all slot jobs s).ready ≡ true
unfolding write_ready_all
write_ready_all-has_ready slot [] s job h p idle = elim p [ ]
write_ready_all-has_ready slot (x ∷ xs) s job h here idle =
    write_ready_all-keeps slot job.id xs (write_ready slot job s)
      (write_ready-has_ready slot job s h idle)
write_ready_all-has_ready slot (x ∷ xs) s job h (there p) idle =
    write_ready_all-has_ready slot xs (write_ready slot x s) job h p
      (rw ((write_ready-Same slot x s).attempts_same) idle)

-- What a test selects.
module _ {ℓ} {A : Type ℓ} (test : A → Bool) where
  pub IsIn-select_where :
      (x : A) (xs : List A) → IsIn x xs → test x ≡ true → IsIn x (select_where test xs)
  IsIn-select_where x [] p e = elim p [ ]
  IsIn-select_where x (y ∷ ys) here e = rw e here
  IsIn-select_where x (y ∷ ys) (there p) e = elim (Bool-cases (test y)) [
    | inl yes_y ↦ rw yes_y (there (IsIn-select_where x ys p e))
    | inr no_y ↦ rw no_y (IsIn-select_where x ys p e)
  ]

  among :
      (x y : A) (ys : List A)
      → test y ≡ true
      → IsIn x (y ∷ select_where test ys)
      → (IsIn x (select_where test ys) → (test x ≡ true) × IsIn x ys)
      → (test x ≡ true) × IsIn x (y ∷ ys)
  among x y ys passes here rest = (passes, here)
  among x y ys passes (there q) rest = let r = rest q in (r.0, there r.1)

  pub selected-IsIn :
      (x : A) (xs : List A) → IsIn x (select_where test xs) → (test x ≡ true) × IsIn x xs
  selected-IsIn x [] p = elim p [ ]
  selected-IsIn x (y ∷ ys) p = elim (Bool-cases (test y)) [
    | inl passes ↦ among x y ys passes (rw passes at p) (selected-IsIn x ys)
    | inr fails ↦ let q = selected-IsIn x ys (rw fails at p) in (q.0, there q.1)
  ]

kept_from :
    (y : ReadyEntry) (ys : List ReadyEntry) (e : ReadyEntry)
    → is_entry y.slot y.job_id e ≡ false
    → ((x : ReadyEntry) → IsIn x ys → is_entry x.slot x.job_id e ≡ false)
    → (x : ReadyEntry) → IsIn x (y ∷ ys)
    → is_entry x.slot x.job_id e ≡ false
kept_from y ys e no_y no_ys x here = no_y
kept_from y ys e no_y no_ys x (there p) = no_ys x p

pub delete_entries-IsIn :
    (xs es : List ReadyEntry) (e : ReadyEntry)
    → IsIn e (delete_entries xs es)
    → IsIn e es × ((x : ReadyEntry) → IsIn x xs → is_entry x.slot x.job_id e ≡ false)
unfolding delete_entries
delete_entries-IsIn [] es e p = (p, λ x q. elim q [ ])
delete_entries-IsIn (y ∷ ys) es e p =
    let rest = delete_entries-IsIn ys (delete_entry y.slot y.job_id es) e p in
    let kept = selected-IsIn (λ e'. not (is_entry y.slot y.job_id e')) e es rest.0 in
    (kept.1, kept_from y ys e (ground (arith, kept.0)) rest.1)

has_ready-delete_entry :
    (slot k j : ℕ) (es : List ReadyEntry)
    → (k == j) ≡ false
    → has_ready j (delete_entry slot k es) ≡ has_ready j es
unfolding has_ready
has_ready-delete_entry slot k j [] h = refl
has_ready-delete_entry slot k j (e ∷ es) h = elim (Bool-cases (is_entry slot k e)) [
  | inl y ↦ rw y (ground (arith, y, h, has_ready-delete_entry slot k j es h))
  | inr n ↦ rw n (ground (arith, has_ready-delete_entry slot k j es h))
]

pub has_ready-delete_entries :
    (j : ℕ) (xs es : List ReadyEntry)
    → ((x : ReadyEntry) → IsIn x xs → (x.job_id == j) ≡ false)
    → has_ready j (delete_entries xs es) ≡ has_ready j es
unfolding delete_entries
has_ready-delete_entries j [] es others = refl
has_ready-delete_entries j (x ∷ xs) es others =
    has_ready-delete_entries j xs (delete_entry x.slot x.job_id es) (λ y p. others y (there p))
    ∙ has_ready-delete_entry x.slot x.job_id j es (others x here)
