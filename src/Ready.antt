-- ===== src/Ready.antt =====
-- core/ready.py: which jobs may be claimed. The dependency judgement and the throttle; the tables
-- themselves are in Backend.
pub mod Judge
pub mod Chain
pub mod Throttle
mod Tests
use sqlery.Prelude.{
  ℕ, zero, suc, ◌+◌, Bool, true, false, not, ◌&&◌, ◌||◌, Option, none, some, List, [], ◌∷◌, ◌++◌,
  Text, ltb, leb, ◌==◌, if◌then◌else◌, mem, is_empty,
}

-- The values of a job's `status` column.
pub data Status : Type 0 where
  queued running shutting_down success failed archived : Status

abbrev pub is_success : Status → Bool
is_success success = true
is_success _ = false

abbrev pub is_failed : Status → Bool
is_failed failed = true
is_failed _ = false

abbrev pub is_queued : Status → Bool
is_queued queued = true
is_queued _ = false

-- `status in ("failed", "archived")`
abbrev pub is_over : Status → Bool
is_over failed = true
is_over archived = true
is_over _ = false

-- What the judgement reads of a job.
pub record Dependency : Type 0 where
  pub id : ℕ
  pub status : Status
  pub termination_reason : Text

abbrev pub max_chain_hops : ℕ
max_chain_hops = 1000

-- One element of the column is `none` where `int(raw)` raises.
abbrev add_dependency : Option ℕ → List ℕ → List ℕ
add_dependency none seen = seen
add_dependency (some dep) seen = if mem dep seen then seen else seen ++ dep ∷ []

unfoldable pub collect_ids : (seen : List ℕ) → List (Option ℕ) → List ℕ
collect_ids seen [] = seen
collect_ids seen (raw ∷ raws) = collect_ids (add_dependency raw seen) raws

abbrev pub dependency_ids : List (Option ℕ) → List ℕ
dependency_ids = collect_ids []

pub data State : Type 0 where
  met pending failed : State

pub record DependencyVerdict : Type 0 where
  pub state : State
  pub failed : List ℕ

-- The database, as the judgement asks it, and the test for an owed retry.
pub record Lookup : Type 0 where
  pub fetch : ℕ → Option Dependency
  pub latest_retry : ℕ → Option Dependency
  pub is_retry_pending : Text → Bool

abbrev pub is_pending : State → Bool
is_pending pending = true
is_pending _ = false

abbrev pub finish : (failures : List ℕ) (waiting : Bool) → DependencyVerdict
finish [] waiting = record { state = if waiting then pending else met; failed = [] }
finish (d ∷ ds) waiting = record { state = failed; failed = d ∷ ds }

module _ (db : Lookup) where
  -- The `while` loop along the retry chain; the hops left are its fuel, as in the source.
  unfoldable pub follow : (hops : ℕ) → Dependency → Dependency
  follow zero dep = dep
  follow (suc hops) dep = elim (is_over dep.status) [
    | true ↦ elim (db.latest_retry dep.id) [ none ↦ dep | some child ↦ follow hops child ]
    | false ↦ dep
  ]

  -- What the newest attempt of a dependency says.
  abbrev pub judge_final : Dependency → DependencyVerdict
  judge_final dep =
      if is_success dep.status
      then record { state = met; failed = [] }
      else if is_failed dep.status
      then (if db.is_retry_pending dep.termination_reason
          then record { state = pending; failed = [] }
          else record { state = failed; failed = dep.id ∷ [] })
      else record { state = pending; failed = [] }

  -- One round of the `for` loop, for one dependency id.
  unfoldable pub judge_one : ℕ → DependencyVerdict
  judge_one dep_id = elim (db.fetch dep_id) [
    | none ↦ record { state = failed; failed = dep_id ∷ [] }
    | some dep ↦ judge_final (follow max_chain_hops dep)
  ]

  unfoldable pub judge_from : (failures : List ℕ) (waiting : Bool) → List ℕ → DependencyVerdict
  unfolding judge_one
  judge_from failures waiting [] = finish failures waiting
  judge_from failures waiting (dep_id ∷ deps) =
      let v = judge_one dep_id in
      judge_from (failures ++ v.failed) (waiting || is_pending v.state) deps

  abbrev pub judge_dependencies : List ℕ → DependencyVerdict
  judge_dependencies = judge_from [] false
