-- ===== src/Ready/Judge.antt =====
-- The verdict on a job's dependencies is that of its worst dependency.
use mathlib.Core.List.{append-nil, append_assoc}
use sqlery.Prelude.{
  ◌≤◌, ap, ◌∙◌, inl, inr, Option-cases, some, ◌↔◌, refl, ◌≢◌, ◌⊎◌, is_empty, All, ℕ, ◌≡◌, Bool,
  false, ◌||◌, List, [], ◌∷◌, ◌++◌, arith,
}
use sqlery.Ready.{
  is_over, pending, judge_dependencies, follow, max_chain_hops, Dependency, success, met, State,
  failed, Lookup, judge_one, judge_from, is_pending, finish,
}
use sqlery.Ready.Chain.{Leads, follow-Leads, Leads-follow}

-- The ids that the dependencies report as failed, in order, and whether one of them waits.
abbrev pub failures : Lookup → List ℕ → List ℕ
failures db [] = []
failures db (d ∷ ds) = (judge_one db d).failed ++ failures db ds

abbrev pub some_pending : Lookup → List ℕ → Bool
some_pending db [] = false
some_pending db (d ∷ ds) = is_pending (judge_one db d).state || some_pending db ds

judge_from-eq :
    (db : Lookup) (fs : List ℕ) (w : Bool) (deps : List ℕ)
    → judge_from db fs w deps ≡ finish (fs ++ failures db deps) (w || some_pending db deps)
unfolding judge_from
judge_from-eq db fs w [] = rw append-nil (ground arith)
judge_from-eq db fs w (d ∷ deps) =
    let v = judge_one db d in
    ground (
      arith,
      judge_from-eq db (fs ++ v.failed) (w || is_pending v.state) deps,
      append_assoc fs v.failed (failures db deps),
    )

-- The worst of the dependencies' states: a failure, then waiting, then met.
abbrev pub worst_of : State → State → State
worst_of failed s = failed
worst_of pending failed = failed
worst_of pending s = pending
worst_of met s = s

abbrev pub worst : Lookup → List ℕ → State
worst db [] = met
worst db (d ∷ deps) = worst_of (judge_one db d).state (worst db deps)

-- One dependency names an id exactly when it failed.
judge_one-failed :
    (db : Lookup) (d : ℕ)
    → ((judge_one db d).state ≡ failed) × (is_empty (judge_one db d).failed ≡ false)
      ⊎ ((judge_one db d).state ≢ failed) × ((judge_one db d).failed ≡ [])
unfolding judge_one
judge_one-failed db d = ground arith

is_empty-append : (xs ys : List ℕ) → is_empty xs ≡ false → is_empty (xs ++ ys) ≡ false
is_empty-append [] ys h = cc
is_empty-append (x ∷ xs) ys h = refl

finish-worst :
    (db : Lookup) (deps : List ℕ)
    → (finish (failures db deps) (some_pending db deps)).state ≡ worst db deps
finish-worst db [] = refl
finish-worst db (d ∷ deps) = ground (
  arith,
  judge_one-failed db d,
  finish-worst db deps,
  is_empty-append (judge_one db d).failed (failures db deps),
)

finish-failed : (fs : List ℕ) (w : Bool) → (finish fs w).failed ≡ fs
finish-failed [] w = refl
finish-failed (d ∷ ds) w = refl

-- The verdict is that of the worst dependency, and it names the failures of all of them in the
-- order of the list.
pub judge_dependencies-worst :
    (db : Lookup) (deps : List ℕ)
    → ((judge_dependencies db deps).state ≡ worst db deps)
      × ((judge_dependencies db deps).failed ≡ failures db deps)
judge_dependencies-worst db deps =
    rw (judge_from-eq db [] false deps)
      (finish-worst db deps, finish-failed (failures db deps) (some_pending db deps))

-- The dependency exists, and the walk along its retries ends at an attempt that succeeded.
abbrev EndsWell : Lookup → ℕ → Type 0
EndsWell db d =
    (dep : Dependency) × (db.fetch d ≡ some dep) × ((follow db max_chain_hops dep).status ≡ success)

-- The dependency exists, and a chain of at most 1000 retries leads from it to an attempt that
-- succeeded, each the latest retry of an attempt that failed or was archived.
abbrev pub Succeeded : Lookup → ℕ → Type 0
Succeeded db d =
    (dep e : Dependency) × (n : ℕ) × (db.fetch d ≡ some dep)
    × Leads db dep e n
    × (n ≤ 1000)
    × (e.status ≡ success)

EndsWell-Succeeded : (db : Lookup) (d : ℕ) → EndsWell db d → Succeeded db d
EndsWell-Succeeded db d (dep, found, ends) =
    let (n, le, chain) = Leads-follow db max_chain_hops dep in
    (dep, follow db max_chain_hops dep, n, found, chain, le, ends)

Succeeded-EndsWell : (db : Lookup) (d : ℕ) → Succeeded db d → EndsWell db d
Succeeded-EndsWell db d (dep, e, n, found, chain, le, ends) =
    let running : is_over e.status ≡ false = rw ends refl in
    (
      dep,
      found,
      ap (λ x. x.status) (follow-Leads db max_chain_hops n chain (inl running) le) ∙ ends,
    )

judge_one-EndsWell : (db : Lookup) (d : ℕ) → (judge_one db d).state ≡ met → EndsWell db d
unfolding judge_one
judge_one-EndsWell db d h = elim (Option-cases (db.fetch d)) [
  | inl missing ↦ absurd (ground arith)
  | inr (dep, found) ↦ (dep, found, ground arith)
]

EndsWell-met : (db : Lookup) (d : ℕ) → EndsWell db d → (judge_one db d).state ≡ met
unfolding judge_one
EndsWell-met db d (dep, found, ends) = ground arith

worst-met : (db : Lookup) (deps : List ℕ) → worst db deps ≡ met → All (Succeeded db) deps
worst-met db [] h = tt
worst-met db (d ∷ deps) h = (
  EndsWell-Succeeded db d (judge_one-EndsWell db d (ground arith)),
  worst-met db deps (ground arith),
)

All-worst : (db : Lookup) (deps : List ℕ) → All (Succeeded db) deps → worst db deps ≡ met
All-worst db [] h = refl
All-worst db (d ∷ deps) h =
    ground (arith, EndsWell-met db d (Succeeded-EndsWell db d h.0), All-worst db deps h.1)

-- A job may run exactly when each of its dependencies exists, and a chain of at most 1000 retries
-- leads from each to an attempt that succeeded, where each is the latest retry of an attempt that
-- failed or was archived.
pub judge_dependencies-met :
    (db : Lookup) (deps : List ℕ)
    → ((judge_dependencies db deps).state ≡ met) ↔ All (Succeeded db) deps
judge_dependencies-met db deps =
    rw ((judge_dependencies-worst db deps).0) (worst-met db deps, All-worst db deps)
