-- ===== src/Backend/Dependents.antt =====
-- fastapi_sqlery/backend.py: release_dependents and _dependents_of, the work list of finished jobs
-- whose dependents are rechecked.
use sqlery.Prelude.{
  ℕ, zero, suc, ◌+◌, Bool, true, false, ◌&&◌, ◌||◌, Option, none, some, List, [], ◌∷◌, ◌++◌, ◌==◌,
  if◌then◌else◌, mem,
}
use sqlery.Backend.{BlockedRow, Db, select_where, first}
use sqlery.Backend.Release.{Recheck, recheck_blocked, all_jobs}
use sqlery.Ready.{max_chain_hops}

abbrev pub parent_of : ℕ → Db → Option ℕ
parent_of p db = elim (first (select_where (λ job. job.id == p) (all_jobs db))) [
  | none ↦ none
  | some job ↦ job.parent_job_id
]

-- The job and its retry ancestors; the hops left are the fuel, as in the source.
unfoldable pub ancestors : (hops : ℕ) → List ℕ → Option ℕ → Db → List ℕ
ancestors zero ids parent db = ids
ancestors (suc hops) ids none db = ids
ancestors (suc hops) ids (some p) db = elim ((p == 0) || mem p ids) [
  | true ↦ ids
  | false ↦ ancestors hops (ids ++ p ∷ []) (parent_of p db) db
]

abbrev pub has_pair : ℕ × ℕ → List (ℕ × ℕ) → Bool
has_pair p [] = false
has_pair p (q ∷ qs) = (q.0 == p.0) && (q.1 == p.1) || has_pair p qs

-- `SELECT DISTINCT job_id, created_at`
abbrev pub distinct_rows : List ℕ → List BlockedRow → List (ℕ × ℕ)
distinct_rows ids [] = []
distinct_rows ids (b ∷ bs) =
    let rest = distinct_rows ids bs in
    if mem b.dependency_id ids && (if has_pair (b.job_id, b.created_at) rest then false else true)
    then (b.job_id, b.created_at) ∷ rest
    else rest

abbrev pub dependents_of : ℕ → Option ℕ → Db → List (ℕ × ℕ)
dependents_of j parent db = distinct_rows (ancestors max_chain_hops (j ∷ []) parent db) db.blocked

-- The loop's variables; the top of the stack comes first.
pub record Work : Type 0 where
  pub stack : List (ℕ × Option ℕ)
  pub released : ℕ
  pub has_raised : Bool
  pub db : Db

abbrev pub note : ℕ → Work → Recheck → Db → Work
note j w Recheck.ready db = record w { released = w.released + 1; db = db }
note j w Recheck.failed db = record w { stack = (j, none) ∷ w.stack; db = db }
note j w Recheck.broken db = record w { has_raised = true; db = db }
note j w Recheck.blocked db = record w { db = db }
note j w Recheck.gone db = record w { db = db }

pub data Released : Type 0 where
  out_of_fuel : Released
  raised : Db → Released
  -- How many dependents became ready.
  released : ℕ → Db → Released

-- The partition slot of new entries and the time, as every recheck of the call reads them.
module _ (slot now : ℕ) where
  -- One recheck, unless an exception ended the call.
  abbrev pub recheck_unless : (has_raised : Bool) → ℕ × ℕ → Work → Work
  recheck_unless true d w = w
  recheck_unless false d w = let r = recheck_blocked slot d.0 d.1 now w.db in note d.0 w r.0 r.1

  abbrev pub recheck_one : ℕ × ℕ → Work → Work
  recheck_one d w = recheck_unless w.has_raised d w

  unfoldable pub recheck_all : List (ℕ × ℕ) → Work → Work
  recheck_all [] w = w
  recheck_all (d ∷ ds) w = recheck_all ds (recheck_one d w)

  -- `while work`; each turn pops one job.
  unfoldable pub release_loop : (fuel : ℕ) (seen : List ℕ) → Work → Released
  release_loop zero seen w = out_of_fuel
  release_loop (suc fuel) seen w = elim w.has_raised [
    | true ↦ raised w.db
    | false ↦ elim w.stack [
      | [] ↦ released w.released w.db
      | top ∷ rest ↦ elim (mem top.0 seen) [
        | true ↦ release_loop fuel seen (record w { stack = rest })
        | false ↦
            release_loop fuel (top.0 ∷ seen)
              (recheck_all (dependents_of top.0 top.1 w.db) (record w { stack = rest }))
      ]
    ]
  ]

  unfoldable pub release_dependents : (fuel job_id : ℕ) (parent : Option ℕ) → Db → Released
  unfolding release_loop
  release_dependents fuel j parent db =
      release_loop fuel []
        (record { stack = (j, parent) ∷ []; released = 0; has_raised = false; db = db })
