-- ===== src/Backend/Entries.antt =====
-- The entries that each round of the scan leaves.
use sqlery.Prelude.{
  ◌||◌, inr, ◌==◌, is_empty, not, inl, subst, Bool-cases, ℕ, ◌≤◌, Bool, Option, none, some, List,
  [], ◌∷◌, ◌≡◌, refl, arith, length, Text,
}
use sqlery.Backend.{
  is_running, is_queued, dependency_ids, not, Job, ReadyEntry, Db, Claimer, select_where, Start,
  restore, keep, claimed, delete_ready,
}
use sqlery.Backend.Finish.{
  fences_hold, Finish, unchanged, row_count, moved, finish_in, finish_rows, move_job, Values,
  Fences,
}
use sqlery.Backend.Release.{fail_queued}
use sqlery.Backend.Rounds.{
  Turn, claims, skips, blocks, fails, raises, delete_entry, entry_count, wait_turn, started,
  take_turn, decided, job_turn, turn, job_of,
}
use sqlery.Backend.Scan.{
  Cursor, Limits, Decision, ok, pending, raised, ended, ended_by, by_dependencies, is_expired,
  claim_decision, tag_limited,
}
use sqlery.Backend.Scanned.{remaining}
use sqlery.Backend.Turned.{after_decision}
use sqlery.Ready.{is_queued, dependency_ids, State, Status}

-- Selecting entries leaves no more of any kind.
select_where-le :
    (test keep_it : ReadyEntry → Bool) (es : List ReadyEntry)
    → length (select_where test (select_where keep_it es)) ≤ length (select_where test es)
select_where-le test keep_it [] = omega arith
select_where-le test keep_it (e ∷ es) = ground (arith, select_where-le test keep_it es)

-- The entries of `t` are no more than those of `s`, for every cursor.
abbrev pub Shrinks : (s t : Db) → Type 0
Shrinks s t = (after : Option Cursor) → remaining after t.ready ≤ remaining after s.ready

Shrinks-trans : (s t u : Db) → Shrinks s t → Shrinks t u → Shrinks s u
Shrinks-trans s t u f g after = omega (arith, f after, g after)

finish_rows-ready :
    (s t : Db) (j : ℕ) (f : Fences) (status : Status) (values : Values) (now : ℕ) (rows : List Job)
    → finish_rows s j f status values now rows ≡ moved t
    → t.ready ≡ s.ready
finish_rows-ready s t j f status values now [] h = cc
finish_rows-ready s t j f status values now (x ∷ y ∷ rows) h = cc
finish_rows-ready s t j f status values now (x ∷ []) h =
    let same : move_job s j f status values now x ≡ t = cc in
    subst (λ u. u.ready ≡ s.ready) same refl

finish_in-ready :
    (j : ℕ) (status : Status) (values : Values) (f : Fences) (now : ℕ) (s t : Db)
    → finish_in j status values f now s ≡ moved t
    → t.ready ≡ s.ready
unfolding finish_in
finish_in-ready j status values f now s t h =
    finish_rows-ready s t j f status values now (select_where (fences_hold s j f) s.live) h

fail_queued-ready :
    (job : Job) (reason : Text) (now : ℕ) (s t : Db)
    → fail_queued job reason now s ≡ moved t
    → t.ready ≡ (delete_ready job.id s).ready
unfolding fail_queued
fail_queued-ready job reason now s t h = finish_in-ready job.id Status.failed _ _ now _ t h

Shrinks-refl : (s : Db) → Shrinks s s
Shrinks-refl s after = omega arith

delete_entry-Shrinks : (e : ReadyEntry) (s : Db) → Shrinks s (delete_entry e s)
delete_entry-Shrinks e s after = select_where-le _ _ s.ready

delete_ready-Shrinks : (j : ℕ) (s : Db) → Shrinks s (delete_ready j s)
delete_ready-Shrinks j s after = select_where-le _ _ s.ready

ended_by-Shrinks :
    (job : Job) (reason : Text) (now : ℕ) (s : Db) (out : Finish)
    → fail_queued job reason now s ≡ out
    → Shrinks s (after_decision s (ended_by s job out))
ended_by-Shrinks job reason now s (moved t) h =
    λ after. rw (fail_queued-ready job reason now s t h) (delete_ready-Shrinks job.id s after)
ended_by-Shrinks job reason now s unchanged h = delete_ready-Shrinks job.id s
ended_by-Shrinks job reason now s row_count h = Shrinks-refl s

by_dependencies-Shrinks :
    (job : Job) (now : ℕ) (s : Db) (v : State)
    → Shrinks s (after_decision s (by_dependencies job now s v))
by_dependencies-Shrinks job now s State.met = Shrinks-refl s
by_dependencies-Shrinks job now s State.pending = Shrinks-refl s
by_dependencies-Shrinks job now s State.failed = ended_by-Shrinks job _ now s _ refl

claim_decision-Shrinks :
    (job : Job) (now : ℕ) (s : Db) → Shrinks s (after_decision s (claim_decision job now s))
unfolding claim_decision
claim_decision-Shrinks job now s = elim (Bool-cases (is_expired job now)) [
  | inl y ↦ rw y (ended_by-Shrinks job _ now s _ refl)
  | inr n ↦ elim (Bool-cases (is_empty (dependency_ids job.dependencies))) [
    | inl y ↦ rw (n, y) (Shrinks-refl s)
    | inr m ↦ rw (n, m) (by_dependencies-Shrinks job now s _)
  ]
]

-- A claim returns, so nothing is asked of its tables.
abbrev pub Continues : (s : Db) → Turn → Type 0
Continues s (claims handle t) = Unit
Continues s (skips t) = Shrinks s t
Continues s (blocks t) = Shrinks s t
Continues s (fails t) = Shrinks s t
Continues s raises = Unit

started-Continues :
    (e : ReadyEntry) (s : Db) (out : Start) → Continues s (started s (delete_entry e s) out)
started-Continues e s restore = Shrinks-refl s
started-Continues e s keep = delete_entry-Shrinks e s
started-Continues e s (claimed handle t) = tt

wait_turn-Continues : (e : ReadyEntry) (job : Job) (s : Db) → Continues s (wait_turn e job s)
wait_turn-Continues e job s = elim (Bool-cases (is_empty (dependency_ids job.dependencies))) [
  | inl y ↦ rw y (Shrinks-refl s)
  | inr n ↦ elim (Bool-cases (entry_count e s == 1)) [
    | inl y ↦ rw (n, y) (delete_entry-Shrinks e s)
    | inr m ↦ rw (n, m) (delete_entry-Shrinks e s)
  ]
]

take_turn-Continues :
    (c : Claimer) (e : ReadyEntry) (job : Job) (s : Db) → Continues s (take_turn c e job s)
take_turn-Continues c e job s = elim (Bool-cases (entry_count e s == 1)) [
  | inl y ↦ rw y (started-Continues e s _)
  | inr n ↦ rw n (delete_entry-Shrinks e s)
]

module _ (c : Claimer) (limits : Limits) (e : ReadyEntry) where
  decided-Continues :
      (job : Job) (s : Db) (d : Decision)
      → Shrinks s (after_decision s d)
      → Continues s (decided c limits e job s d)
  decided-Continues job s (ended t) less =
      Shrinks-trans s t (delete_ready e.job_id t) less (delete_ready-Shrinks e.job_id t)
  decided-Continues job s raised less = tt
  decided-Continues job s pending less = wait_turn-Continues e job s
  decided-Continues job s ok less = elim (Bool-cases (tag_limited limits c.now s job.tags)) [
    | inl y ↦ rw y (Shrinks-refl s)
    | inr n ↦ rw n (take_turn-Continues c e job s)
  ]

  job_turn-Continues : (s : Db) (row : Option Job) → Continues s (job_turn c limits e s row)
  job_turn-Continues s none = delete_entry-Shrinks e s
  job_turn-Continues s (some job) =
      elim (Bool-cases (not (is_queued job.status) || is_running e.job_id s)) [
        | inl y ↦ rw y (delete_entry-Shrinks e s)
        | inr n ↦ rw n (
            decided-Continues job s (claim_decision job c.now s)
              (claim_decision-Shrinks job c.now s))
      ]

  pub turn-Continues : (s : Db) → Continues s (turn c limits e s)
  unfolding turn
  turn-Continues s = job_turn-Continues s (job_of e s)
