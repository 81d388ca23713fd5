-- ===== src/Worker/Once.antt =====
-- An outcome that was recorded although the child lost its connection.
use sqlery.Prelude.{ℕ, Option, none, some, ◌≡◌, ◌⊎◌, refl, arith, inl, inr, Bool-cases}
use sqlery.Attempts.{AttemptHandle, Outcome}
use sqlery.Backend.{Job, Db}
use sqlery.Backend.Complete.{Completion, rejected, gone, recorded, fenced_update}
use sqlery.Backend.Fencing.{fenced_update-once}
use sqlery.Backend.Finish.{Values}
use sqlery.Backend.OneAttempt.{IsValid}
use sqlery.Backend.Trace.{Reach}
use sqlery.Ready.{Status}
use sqlery.Retry.{JobSpec, Failure}
use sqlery.Worker.{
  Settings, already_finished, mark_found, mark_job_success, mark_job_failed, mark_failed,
}
use sqlery.Worker.Child.{
  raised, returned, lost_after, left_over, completion_of, TaskResult, Connection, run_job_in_child,
  Given, UnpersistedOutcome, persist_success, persist_failure, persist_outcome,
}

-- A completion that changes nothing.
abbrev pub IsRefused : Completion → Type 0
IsRefused c = (c ≡ rejected) ⊎ (c ≡ gone)

already_finished-IsRefused :
    (version : Option ℕ) (h : AttemptHandle) → already_finished version (some h) ≡ rejected
already_finished-IsRefused none h = refl
already_finished-IsRefused (some v) h = refl

module _ (h : AttemptHandle) (t u : Db) (run : Reach t u) where
  mark_found-recorded :
      (j : ℕ) (version : Option ℕ) (status : Status) (values : Values) (o : Outcome) (now : ℕ)
      (s : Db) (live finished : Option Job)
      → mark_found j version status values (some h) o now s live finished ≡ recorded t
      → fenced_update j version status values (some h) o now s ≡ recorded t
  mark_found-recorded j version status values o now s (some job) finished e = e
  mark_found-recorded j version status values o now s none (some job) e =
      let refused = already_finished-IsRefused version h in cc
  mark_found-recorded j version status values o now s none none e = cc

  mark_found-again :
      (j : ℕ) (version : Option ℕ) (status : Status) (values : Values) (o : Outcome) (now : ℕ)
      (live finished : Option Job)
      → fenced_update j version status values (some h) o now u ≡ rejected
      → IsRefused (mark_found j version status values (some h) o now u live finished)
  mark_found-again j version status values o now (some job) finished e = inl e
  mark_found-again j version status values o now none (some job) e =
      inl (already_finished-IsRefused version h)
  mark_found-again j version status values o now none none e = inr refl

  -- After a completion with the handle was recorded, every other one with it changes nothing.
  mark_found-once :
      (j : ℕ) (version : Option ℕ) (status : Status) (values : Values) (o : Outcome) (now : ℕ)
      (s : Db) (live finished : Option Job)
      → IsValid s
      → mark_found j version status values (some h) o now s live finished ≡ recorded t
      → (j' : ℕ) (version' : Option ℕ) (status' : Status) (values' : Values) (o' : Outcome)
        (now' : ℕ) (live' finished' : Option Job)
      → IsRefused (mark_found j' version' status' values' (some h) o' now' u live' finished')
  mark_found-once j version status values o now s live finished v e j' version' status' values' o'
        now' live' finished' =
      mark_found-again j' version' status' values' o' now' live' finished' (
        fenced_update-once j version status values h o now s t u v
          (mark_found-recorded j version status values o now s live finished e) run j' version'
          status' values' o' now')

module _ (set : Settings) (g : Given) (spec : JobSpec) (job : Job)
    (attempt : Option AttemptHandle) where
  persist_success-IsRefused :
      (u : Db) (c : Completion) → IsRefused c → persist_success set g spec job attempt u c ≡ u
  persist_success-IsRefused u c (inl e) = rw e refl
  persist_success-IsRefused u c (inr e) = rw e refl

  persist_failure-IsRefused :
      (o : UnpersistedOutcome) (u : Db) (c : Completion)
      → IsRefused c
      → persist_failure set g spec job attempt o u c ≡ u
  persist_failure-IsRefused o u c (inl e) = rw e refl
  persist_failure-IsRefused o u c (inr e) = rw e refl

  persist_outcome-refused :
      (o : UnpersistedOutcome) (u : Db)
      → IsRefused (mark_job_success o.job_id o.expected_version o.attempt g.now u)
      → IsRefused (mark_failed o.job_id o.expected_version o.will_retry o.attempt g.now u)
      → persist_outcome set g spec job attempt o u ≡ u
  unfolding persist_outcome
  persist_outcome-refused o u ok bad = elim (Bool-cases o.success) [
    | inl y ↦ rw y (persist_success-IsRefused u _ ok)
    | inr n ↦ rw n (persist_failure-IsRefused o u _ bad)
  ]

module _ (set : Settings) (g : Given) (spec : JobSpec) (job : Job) (h : AttemptHandle) (s t u : Db)
    (v : IsValid s) (run : Reach t u) where
  -- With the handle of a recorded completion, the parent's writes change nothing.
  refused :
      (status : Status) (values : Values) (o : Outcome) (live finished : Option Job)
      → mark_found job.id (some job.version) status values (some h) o g.now s live finished
        ≡ recorded t
      → (out : UnpersistedOutcome) → out.attempt ≡ some h
      → persist_outcome set g spec job (some h) out u ≡ u
  unfolding mark_job_success mark_failed mark_job_failed
  refused status values o live finished e out mine =
      persist_outcome-refused set g spec job (some h) out u
        (rw mine (
          mark_found-once h t u run job.id (some job.version) status values o g.now s live finished
            v e out.job_id out.expected_version _ _ _ g.now _ _))
        (rw mine (
          mark_found-once h t u run job.id (some job.version) status values o g.now s live finished
            v e out.job_id out.expected_version _ _ _ g.now _ _))

  -- A child's completion was recorded on valid tables although its connection was lost: whatever
  -- transactions come between, its parent changes nothing when it persists the outcome that the child
  -- left.
  pub persist_outcome-once :
      (later : Connection) (runtime_error : Failure) (result : TaskResult)
      → completion_of set g spec job (some h) result s ≡ recorded t
      → (out : UnpersistedOutcome)
      → left_over (run_job_in_child set g spec job (some h) lost_after later runtime_error result s)
        ≡ some out
      → persist_outcome set g spec job (some h) out u ≡ u
  unfolding run_job_in_child mark_job_success mark_failed mark_job_failed
  persist_outcome-once later runtime_error returned e out left =
      refused Status.success _ Outcome.success _ _ e out (ground arith)
  persist_outcome-once later runtime_error (raised exc) e out left =
      refused Status.failed _ Outcome.failed _ _ e out (ground arith)
