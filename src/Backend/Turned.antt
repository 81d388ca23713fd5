-- ===== src/Backend/Turned.antt =====
-- Each round of the scan is a chain of the changes of Backend/Effect.
use sqlery.Prelude.{
  Text, ℕ, Option, none, some, ◌≡◌, refl, Bool-cases, inl, inr, not, ◌||◌, ◌==◌, is_empty,
}
use sqlery.Backend.{
  Status, Text, Job, ReadyEntry, Db, Claimer, start_attempt, Start, restore, keep, claimed,
  is_running,
}
use sqlery.Backend.Effect.{Effect, Effects, entries, done, after, one}
use sqlery.Backend.Finish.{Finish, unchanged, row_count, moved}
use sqlery.Backend.Made.{start_attempt-Effect}
use sqlery.Backend.Recorded.{finish_in-Effect}
use sqlery.Backend.Release.{fail_queued}
use sqlery.Backend.Requeued.{dropped-Effects}
use sqlery.Backend.Rounds.{
  Turn, claims, skips, blocks, fails, raises, delete_entry, entry_count, wait_turn, started,
  take_turn, decided, job_turn, turn, job_of,
}
use sqlery.Backend.Scan.{
  Limits, tag_limited, claim_decision, Decision, ok, pending, raised, ended, ended_by,
  by_dependencies, is_expired,
}
use sqlery.Ready.{Status, is_queued, dependency_ids, State}

-- The tables after a round: an exception rolls back.
abbrev pub after_turn : Db → Turn → Db
after_turn db (claims handle t) = t
after_turn db (skips t) = t
after_turn db (blocks t) = t
after_turn db (fails t) = t
after_turn db raises = db

abbrev pub after_decision : Db → Decision → Db
after_decision db (ended t) = t
after_decision db _ = db

ended_by-Effects :
    (job : Job) (reason : Text) (now : ℕ) (s : Db) (out : Finish)
    → fail_queued job reason now s ≡ out
    → Effects s (after_decision s (ended_by s job out))
unfolding fail_queued
ended_by-Effects job reason now s (moved t) h =
    after (dropped-Effects job.id s) (finish_in-Effect job.id Status.failed _ _ now _ t h)
ended_by-Effects job reason now s unchanged h = dropped-Effects job.id s
ended_by-Effects job reason now s row_count h = done

by_dependencies-Effects :
    (job : Job) (now : ℕ) (s : Db) (v : State)
    → Effects s (after_decision s (by_dependencies job now s v))
by_dependencies-Effects job now s State.met = done
by_dependencies-Effects job now s State.pending = done
by_dependencies-Effects job now s State.failed = ended_by-Effects job _ now s _ refl

claim_decision-Effects :
    (job : Job) (now : ℕ) (s : Db) → Effects s (after_decision s (claim_decision job now s))
unfolding claim_decision
claim_decision-Effects job now s = elim (Bool-cases (is_expired job now)) [
  | inl y ↦ rw y (ended_by-Effects job _ now s _ refl)
  | inr n ↦ elim (Bool-cases (is_empty (dependency_ids job.dependencies))) [
    | inl y ↦ rw (n, y) done
    | inr m ↦ rw (n, m) (by_dependencies-Effects job now s _)
  ]
]

wait_turn-Effects :
    (e : ReadyEntry) (job : Job) (s : Db) → Effects s (after_turn s (wait_turn e job s))
wait_turn-Effects e job s = elim (Bool-cases (is_empty (dependency_ids job.dependencies))) [
  | inl y ↦ rw y done
  | inr n ↦ elim (Bool-cases (entry_count e s == 1)) [
    | inl y ↦ rw (n, y) (one (entries refl refl refl refl))
    | inr m ↦ rw (n, m) (one (entries refl refl refl refl))
  ]
]

started-Effects :
    (c : Claimer) (job : Job) (before s : Db) (out : Start)
    → Effect before s
    → start_attempt c job s ≡ out
    → Effects before (after_turn before (started before s out))
started-Effects c job before s restore e h = done
started-Effects c job before s keep e h = one e
started-Effects c job before s (claimed handle t) e h =
    after (one e) (start_attempt-Effect c job s t handle h)

take_turn-Effects :
    (c : Claimer) (e : ReadyEntry) (job : Job) (s : Db)
    → Effects s (after_turn s (take_turn c e job s))
take_turn-Effects c e job s = elim (Bool-cases (entry_count e s == 1)) [
  | inl y ↦ rw y (started-Effects c job s (delete_entry e s) _ (entries refl refl refl refl) refl)
  | inr n ↦ rw n (one (entries refl refl refl refl))
]

module _ (c : Claimer) (limits : Limits) (e : ReadyEntry) where
  decided-Effects :
      (job : Job) (s : Db) (d : Decision)
      → Effects s (after_decision s d)
      → Effects s (after_turn s (decided c limits e job s d))
  decided-Effects job s (ended t) es = after es (entries refl refl refl refl)
  decided-Effects job s raised es = done
  decided-Effects job s pending es = wait_turn-Effects e job s
  decided-Effects job s ok es = elim (Bool-cases (tag_limited limits c.now s job.tags)) [
    | inl y ↦ rw y done
    | inr n ↦ rw n (take_turn-Effects c e job s)
  ]

  job_turn-Effects :
      (s : Db) (row : Option Job) → Effects s (after_turn s (job_turn c limits e s row))
  job_turn-Effects s none = one (entries refl refl refl refl)
  job_turn-Effects s (some job) =
      elim (Bool-cases (not (is_queued job.status) || is_running e.job_id s)) [
        | inl y ↦ rw y (one (entries refl refl refl refl))
        | inr n ↦ rw n (
            decided-Effects job s (claim_decision job c.now s) (claim_decision-Effects job c.now s))
      ]

  pub turn-Effects : (s : Db) → Effects s (after_turn s (turn c limits e s))
  unfolding turn
  turn-Effects s = job_turn-Effects s (job_of e s)
