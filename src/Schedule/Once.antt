-- ===== src/Schedule/Once.antt =====
-- Leaders of the scheduler that overlap: how often a tick of a cron task is enqueued.
use sqlery.Prelude.{
  ==_self, ◌∙◌, ==_iff, subst, Option-cases, if◌then◌else◌, ℕ, ◌<◌, ◌≡◌, Bool, true, false, Option,
  none, some, List, arith, refl, Bool-cases, inl, inr, ◌==◌,
}
use sqlery.Backend.{Job, Db}
use sqlery.Schedule.{
  enqueue, is_some_of, Tables, ScheduledTask, put_task, set_next_run, is_due_row, advance_cas,
  advance_locked, advance_row, calculate_next_run,
}
use sqlery.Schedule.NextRun.{IsNext, calculate_next_run-later}

abbrev pub set_enabled : Bool → Option ScheduledTask → Option ScheduledTask
set_enabled b none = none
set_enabled b (some row) = some (record row { enabled = b })

-- A leader fires a task for any due time that it read, at any time; a task is enabled, disabled or
-- deleted; the job queue goes on.
pub data Step (next : (expression base : ℕ) → ℕ) (s : Tables) : Tables → Type 0 where
  fires :
      (cap slot t due expression now : ℕ) (job : Job)
      → Step next s
          (advance_cas slot t due (calculate_next_run next cap expression due now) job s).0
  fires_locked :
      (cap slot t due expression now : ℕ) (job : Job)
      → Step next s
          (advance_locked slot t due (calculate_next_run next cap expression due now) job s).0
  toggles : (t : ℕ) (b : Bool) → Step next s (put_task t (set_enabled b (s.tasks t)) s)
  deletes : (t : ℕ) → Step next s (put_task t none s)
  works :
      (db : Db) (enqueued : List (ℕ × ℕ)) → Step next s (record s { db = db; enqueued = enqueued })

pub data Reach (next : (expression base : ℕ) → ℕ) (s : Tables) : Tables → Type 0 where
  start : Reach next s s
  step : {t u : Tables} → Reach next s t → Step next t u → Reach next s u

abbrev IsAfter : ℕ → Option ℕ → Type 0
IsAfter due none = Unit
IsAfter due (some d) = due < d

-- The task's next run, if it has one, is later than `due`.
abbrev IsPassed : ℕ → Option ScheduledTask → Type 0
IsPassed due none = Unit
IsPassed due (some row) = IsAfter due row.next_run_at

is_some_of-IsAfter : (due : ℕ) (next : Option ℕ) → IsAfter due next → is_some_of due next ≡ false
is_some_of-IsAfter due none p = refl
is_some_of-IsAfter due (some d) p = ground arith

is_due_row-IsPassed :
    (due : ℕ) (row : Option ScheduledTask) → IsPassed due row → is_due_row due row ≡ false
is_due_row-IsPassed due none p = refl
is_due_row-IsPassed due (some row) p = rw (is_some_of-IsAfter due row.next_run_at p) refl

advance_row_lem :
    (slot t observed new : ℕ) (job : Job) (row : Option ScheduledTask) (s : Tables)
    → advance_row slot t observed new job row s ≡ (
        if is_due_row observed row
        then (enqueue slot t job (put_task t (set_next_run (some new) row) s), true)
        else (s, false))
unfolding advance_row
advance_row_lem slot t observed new job none s = refl
advance_row_lem slot t observed new job (some row) s = elim (Option-cases row.next_run_at) [
  | inl never ↦ rw never refl
  | inr (due, e) ↦ rw e (elim (Bool-cases row.enabled) [
    | inl on ↦ rw on (elim (Bool-cases (due == observed)) [
      | inl same ↦ rw same refl
      | inr other ↦ rw other refl
    ])
    | inr off ↦ rw off (elim (Bool-cases (due == observed)) [
      | inl same ↦ rw same refl
      | inr other ↦ rw other refl
    ])
  ])
]

-- The two ways to advance a task agree: both enqueue and advance, or neither changes anything.
pub advance_locked-advance_cas :
    (slot t observed new : ℕ) (job : Job) (s : Tables)
    → advance_locked slot t observed new job s ≡ advance_cas slot t observed new job s
unfolding advance_locked advance_cas
advance_locked-advance_cas slot t observed new job s =
    advance_row_lem slot t observed new job (s.tasks t) s

-- An advance that fails changes nothing, and one that succeeds leaves the task at its new time.
module _ (due : ℕ) where
  put_task-IsPassed :
      (t k : ℕ) (row : Option ScheduledTask) (s : Tables)
      → IsPassed due row
      → IsPassed due (s.tasks k)
      → IsPassed due ((put_task t row s).tasks k)
  put_task-IsPassed t k row s new old = elim (Bool-cases (k == t)) [
    | inl same ↦ rw same new
    | inr other ↦ rw other old
  ]

  set_next_run-IsPassed :
      (new : ℕ) (row : Option ScheduledTask)
      → due < new
      → IsPassed due (set_next_run (some new) row)
  set_next_run-IsPassed new none h = tt
  set_next_run-IsPassed new (some row) h = h

  set_enabled-IsPassed :
      (b : Bool) (row : Option ScheduledTask) → IsPassed due row → IsPassed due (set_enabled b row)
  set_enabled-IsPassed b none p = tt
  set_enabled-IsPassed b (some row) p = p

  is_some_of-IsPassed :
      (d : ℕ) (next : Option ℕ) → is_some_of d next ≡ true → IsAfter due next → due < d
  is_some_of-IsPassed d none e p = cc
  is_some_of-IsPassed d (some m) e p = ground arith

  -- A row that another advance found due for `d` is passed by what `d` advances to.
  is_due_row-later :
      (d : ℕ) (row : Option ScheduledTask) → is_due_row d row ≡ true → IsPassed due row → due < d
  is_due_row-later d none e p = cc
  is_due_row-later d (some row) e p = is_some_of-IsPassed d row.next_run_at (ground arith) p

  advance_cas-IsPassed :
      (slot t k d new : ℕ) (job : Job) (s : Tables)
      → d < new
      → IsPassed due (s.tasks t)
      → IsPassed due ((advance_cas slot k d new job s).0.tasks t)
  unfolding advance_cas
  advance_cas-IsPassed slot t k d new job s later p = elim (Bool-cases (is_due_row d (s.tasks k))) [
    | inl won ↦ rw won (elim (Bool-cases (t == k)) [
      | inl same ↦
          let equal : t ≡ k = (==_iff t k).0 same in
          let passed : IsPassed due (s.tasks k) = subst (λ j. IsPassed due (s.tasks j)) equal p in
          let beyond = is_due_row-later d (s.tasks k) won passed in
          rw same (set_next_run-IsPassed new (s.tasks k) (omega arith))
      | inr other ↦ rw other p
    ])
    | inr lost ↦ rw lost p
  ]

  Step-IsPassed :
      (next : (expression base : ℕ) → ℕ) (n : IsNext next) (t : ℕ) {s u : Tables}
      → IsPassed due (s.tasks t)
      → Step next s u
      → IsPassed due (u.tasks t)
  Step-IsPassed next n t {s} p (fires cap slot k d expression now job) =
      advance_cas-IsPassed slot t k d (calculate_next_run next cap expression d now) job s
        (calculate_next_run-later next n cap expression d now) p
  Step-IsPassed next n t {s} p (fires_locked cap slot k d expression now job) =
      rw (advance_locked-advance_cas slot k d (calculate_next_run next cap expression d now) job s)
        (advance_cas-IsPassed slot t k d (calculate_next_run next cap expression d now) job s
          (calculate_next_run-later next n cap expression d now) p)
  Step-IsPassed next n t {s} p (toggles k b) = elim (Bool-cases (t == k)) [
    | inl same ↦ rw same (
        set_enabled-IsPassed b (s.tasks k)
          (subst (λ j. IsPassed due (s.tasks j)) ((==_iff t k).0 same) p))
    | inr other ↦ rw other p
  ]
  Step-IsPassed next n t {s} p (deletes k) = put_task-IsPassed k t none s tt p
  Step-IsPassed next n t p (works db enqueued) = p

  Reach-IsPassed :
      (next : (expression base : ℕ) → ℕ) (n : IsNext next) (t : ℕ) {s u : Tables}
      → IsPassed due (s.tasks t)
      → Reach next s u
      → IsPassed due (u.tasks t)
  Reach-IsPassed next n t p start = p
  Reach-IsPassed next n t p (step r x) = Step-IsPassed next n t (Reach-IsPassed next n t p r) x

  won-IsPassed :
      (slot t new : ℕ) (job : Job) (s : Tables)
      → due < new
      → (advance_cas slot t due new job s).1 ≡ true
      → IsPassed due ((advance_cas slot t due new job s).0.tasks t)
  unfolding advance_cas
  won-IsPassed slot t new job s later won = elim (Bool-cases (is_due_row due (s.tasks t))) [
    | inl hit ↦ rw (hit, ==_self t) (set_next_run-IsPassed new (s.tasks t) later)
    | inr miss ↦ let lost : false ≡ true = rw miss at won in cc
  ]

  advance_cas-lost :
      (slot t new : ℕ) (job : Job) (u : Tables)
      → IsPassed due (u.tasks t)
      → advance_cas slot t due new job u ≡ (u, false)
  unfolding advance_cas
  advance_cas-lost slot t new job u p = rw (is_due_row-IsPassed due (u.tasks t) p) refl

-- With a cron library whose next occurrence is later than its base, and the same for every base before
-- it: after a leader has enqueued a cron task for a due time, whatever leaders fire, tasks are switched or deleted and the job queue
-- does, an advance of the same task for the same due time, by either strategy, enqueues nothing and
-- changes nothing.
pub advance_cas-once :
    (next : (expression base : ℕ) → ℕ) (n : IsNext next) (cap slot t due expression now : ℕ)
    (job : Job) (s u : Tables)
    → (advance_cas slot t due (calculate_next_run next cap expression due now) job s).1 ≡ true
    → Reach next (advance_cas slot t due (calculate_next_run next cap expression due now) job s).0 u
    → (slot' new' : ℕ) (job' : Job)
    → (advance_cas slot' t due new' job' u ≡ (u, false))
      × (advance_locked slot' t due new' job' u ≡ (u, false))
advance_cas-once next n cap slot t due expression now job s u won run slot' new' job' =
    let passed =
      Reach-IsPassed due next n t
        (won-IsPassed due slot t (calculate_next_run next cap expression due now) job s
          (calculate_next_run-later next n cap expression due now) won)
        run in
    let lost = advance_cas-lost due slot' t new' job' u passed in
    (lost, advance_locked-advance_cas slot' t due new' job' u ∙ lost)
