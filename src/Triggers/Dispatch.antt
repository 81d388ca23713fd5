-- ===== src/Triggers/Dispatch.antt =====
-- The actions of src/sqlery/core/triggers.py. The backend and the executor are an interface: a claim
-- from the queue, the look-up and the claim by id, and the execution of a job, each of which may raise.
use sqlery.Prelude.{
  ℕ, zero, suc, ◌+◌, ◌≤◌, ◌≡◌, Bool, true, false, not, ◌&&◌, Option, none, some, List, [], ◌∷◌,
  ◌++◌, min, is_empty, length, length-append, arith,
}
use sqlery.Triggers.{Action, process_queue, process_scheduled, unknown}

pub data Called {ℓ} (A : Type ℓ) : Type ℓ where
  returned : A → Called A
  raised : Called A

pub record Jobs {ℓ} (S : Type ℓ) : Type ℓ where
  pub claim_job : S → Called (Option ℕ) × S
  pub get_job_by_id : ℕ → S → Called (Option ℕ) × S
  pub claim_job_by_id : ℕ → S → Option ℕ × S
  -- Whether it raised.
  pub execute_job : ℕ → S → Bool × S
  pub run_due_tasks : S → Called (List ℕ) × S

-- A value of the payload as float() reads it: `positive` has its integer part.
pub data Number : Type 0 where
  invalid nan nonpositive : Number
  positive : ℕ → Number

-- `int(_positive_number(payload.get("max_jobs"), 1, MAX_JOBS_PER_REQUEST))`; none is its ValueError.
unfoldable pub max_jobs : Number → Option ℕ
max_jobs invalid = some 1
max_jobs nan = none
max_jobs nonpositive = some 1
max_jobs (positive n) = some (min n 100)

pub record Payload : Type 0 where
  -- `payload["job_id"]`, with what int() makes of it.
  pub job_id : Option (Option ℕ)
  pub jobs : Number

pub data Response : Type 0 where
  ok : List ℕ → Response
  not_found not_claimable bad_request : Response
  -- 500, with the jobs that were started.
  failed : List ℕ → Response
  -- An exception that leaves `handle`.
  crashed : Response

abbrev pub job_ids : Response → List ℕ
job_ids (ok ids) = ids
job_ids (failed ids) = ids
job_ids _ = []

module _ {ℓ} {S : Type ℓ} (jobs : Jobs S) (late : ℕ → Bool) where
  abbrev pub executed : (rest : S → Response × S) → List ℕ → (j : ℕ) → Bool × S → Response × S
  executed rest ids j (false, s) = rest s
  executed rest ids j (true, s) = (failed (ids ++ j ∷ []), s)

  abbrev pub claimed :
      (rest : List ℕ → S → Response × S) → List ℕ → Called (Option ℕ) × S → Response × S
  claimed rest ids (raised, s) = (failed [], s)
  claimed rest ids (returned none, s) = (ok ids, s)
  claimed rest ids (returned (some j), s) =
      executed (rest (ids ++ j ∷ [])) ids j (jobs.execute_job j s)

  abbrev pub unless_late : (stop : Bool) → List ℕ → (goes_on : Response × S) → S → Response × S
  unless_late true ids goes_on s = (ok ids, s)
  unless_late false ids goes_on s = goes_on

  -- The loop: `left` is how many more jobs it may run, and `late` whether the deadline has passed when
  -- so many jobs have run.
  unfoldable pub queue_loop : (left : ℕ) → List ℕ → S → Response × S
  queue_loop zero ids s = (ok ids, s)
  queue_loop (suc left) ids s =
      unless_late (not (is_empty ids) && late (length ids)) ids
        (claimed (λ ids' s'. queue_loop left ids' s') ids (jobs.claim_job s)) s

  abbrev pub executed_one : ℕ → Bool × S → Response × S
  executed_one j (false, s) = (ok (j ∷ []), s)
  executed_one j (true, s) = (failed [], s)

  abbrev pub claimed_one : Option ℕ × S → Response × S
  claimed_one (none, s) = (not_claimable, s)
  claimed_one (some j, s) = executed_one j (jobs.execute_job j s)

  abbrev pub found_one : Called (Option ℕ) × S → Response × S
  found_one (raised, s) = (not_found, s)
  found_one (returned none, s) = (not_found, s)
  found_one (returned (some j), s) = claimed_one (jobs.claim_job_by_id j s)

  abbrev pub run_loop : Option ℕ → S → Response × S
  run_loop none s = (crashed, s)
  run_loop (some n) s = queue_loop n [] s

  -- `_dispatch_process_queue`
  unfoldable pub dispatch_process_queue : Payload → S → Response × S
  unfolding max_jobs
  dispatch_process_queue payload s = elim payload.job_id [
    | none ↦ run_loop (max_jobs payload.jobs) s
    | some none ↦ (not_found, s)
    | some (some j) ↦ found_one (jobs.get_job_by_id j s)
  ]

  abbrev pub enqueued : Called (List ℕ) × S → Response × S
  enqueued (returned ids, s) = (ok ids, s)
  enqueued (raised, s) = (failed [], s)

  -- `_dispatch_process_scheduled`
  unfoldable pub dispatch_process_scheduled : S → Response × S
  dispatch_process_scheduled s = enqueued (jobs.run_due_tasks s)

  -- The end of `handle`.
  unfoldable pub dispatch_action : Action → Payload → S → Response × S
  unfolding dispatch_process_queue dispatch_process_scheduled
  dispatch_action process_queue payload s = dispatch_process_queue payload s
  dispatch_action process_scheduled payload s = dispatch_process_scheduled s
  dispatch_action unknown payload s = (bad_request, s)

-- One more job stands at the end.
length-last : (ids : List ℕ) (j : ℕ) → length (ids ++ j ∷ []) ≡ length ids + 1
length-last ids j = omega (arith, length-append ids (j ∷ []))

module _ {ℓ} {S : Type ℓ} (jobs : Jobs S) (late : ℕ → Bool) where
  executed-le :
      (rest : S → Response × S) (ids : List ℕ) (j bound : ℕ) (out : Bool × S)
      → length ids + 1 ≤ bound
      → ((s : S) → length (job_ids (rest s).0) ≤ bound)
      → length (job_ids (executed jobs late rest ids j out).0) ≤ bound
  executed-le rest ids j bound (false, s) few ih = ih s
  executed-le rest ids j bound (true, s) few ih = omega (arith, few, length-last ids j)

  claimed-le :
      (rest : List ℕ → S → Response × S) (ids : List ℕ) (bound : ℕ) (out : Called (Option ℕ) × S)
      → length ids + 1 ≤ bound
      → ((ids' : List ℕ) (s : S)
          → length ids' ≡ length ids + 1
          → length (job_ids (rest ids' s).0) ≤ bound)
      → length (job_ids (claimed jobs late rest ids out).0) ≤ bound
  claimed-le rest ids bound (raised, s) few ih = omega (arith, few)
  claimed-le rest ids bound (returned none, s) few ih = omega (arith, few)
  claimed-le rest ids bound (returned (some j), s) few ih =
      executed-le (rest (ids ++ j ∷ [])) ids j bound (jobs.execute_job j s) few
        (λ s'. ih (ids ++ j ∷ []) s' (length-last ids j))

  queue_loop-le :
      (left : ℕ) (ids : List ℕ) (s : S)
      → length (job_ids (queue_loop jobs late left ids s).0) ≤ length ids + left
  unfolding queue_loop
  queue_loop-le zero ids s = omega arith
  queue_loop-le (suc left) ids s =
      by_deadline (queue_loop-le left) (not (is_empty ids) && late (length ids))
    where
      by_deadline :
          ((ids' : List ℕ) (s' : S)
            → length (job_ids (queue_loop jobs late left ids' s').0) ≤ length ids' + left)
          → (stop : Bool)
          → length (
              job_ids
                (unless_late jobs late stop ids
                  (claimed jobs late
                    (λ ids' s'. queue_loop jobs late left ids' s')
                    ids
                    (jobs.claim_job s))
                  s).0)
            ≤ length ids + suc left
      by_deadline ih true = omega arith
      by_deadline ih false =
          claimed-le (λ ids' s'. queue_loop jobs late left ids' s') ids (length ids + suc left)
            (jobs.claim_job s) (omega arith) (λ ids' s' e. omega (arith, e, ih ids' s'))

  -- A request reports at most a hundred jobs, whatever number its payload asks for.
  run_loop-le : (n : Number) (s : S) → length (job_ids (run_loop jobs late (max_jobs n) s).0) ≤ 100
  unfolding max_jobs
  run_loop-le invalid s = omega (arith, queue_loop-le 1 [] s)
  run_loop-le nan s = omega arith
  run_loop-le nonpositive s = omega (arith, queue_loop-le 1 [] s)
  run_loop-le (positive n) s = omega (arith, queue_loop-le (min n 100) [] s)
