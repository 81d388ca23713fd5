-- ===== src/Ready/Tests.antt =====
-- The judgement, the chain and the throttle at small inputs.
use sqlery.Prelude.{ℕ, ◌≡◌, ◌↔◌, refl, false, none, some, [], ◌∷◌, ◌==◌, if◌then◌else◌, All}
use sqlery.Ready.{Lookup, Dependency, Status, success, archived, running, judge_dependencies, met}
use sqlery.Ready.Judge.{
  worst, failures, Succeeded, judge_dependencies-worst, judge_dependencies-met,
}
use sqlery.Ready.Throttle.{Throttle, due, runs}

abbrev dep : ℕ → Status → Dependency
dep i s = record { id = i; status = s; termination_reason = [] }

-- Job 1 was archived and retried as 2, which succeeded; 3 failed for good; 4 is running.
abbrev jobs : Lookup
jobs = record {
  fetch = λ i.
      if i == 1
      then some (dep 1 archived)
      else if i == 3
      then some (dep 3 Status.failed)
      else if i == 4
      then some (dep 4 running)
      else none;
  latest_retry = λ i. if i == 1 then some (dep 2 success) else none;
  is_retry_pending = λ reason. false;
}

judge_dependencies-worst_example :
    ((judge_dependencies jobs (4 ∷ 1 ∷ 3 ∷ 9 ∷ [])).state ≡ worst jobs (4 ∷ 1 ∷ 3 ∷ 9 ∷ []))
    × ((judge_dependencies jobs (4 ∷ 1 ∷ 3 ∷ 9 ∷ [])).failed ≡ failures jobs (4 ∷ 1 ∷ 3 ∷ 9 ∷ []))
judge_dependencies-worst_example = judge_dependencies-worst jobs (4 ∷ 1 ∷ 3 ∷ 9 ∷ [])

judge_dependencies-met_example :
    ((judge_dependencies jobs (1 ∷ [])).state ≡ met) ↔ All (Succeeded jobs) (1 ∷ [])
judge_dependencies-met_example = judge_dependencies-met jobs (1 ∷ [])

abbrev every_five : Throttle
every_five = record { interval = 5; last = none }

throttled : runs every_five (0 ∷ 3 ∷ 5 ∷ 6 ∷ 11 ∷ []) ≡ 0 ∷ 5 ∷ 11 ∷ []
unfolding runs due
throttled = refl
