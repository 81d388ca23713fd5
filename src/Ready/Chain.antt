-- ===== src/Ready/Chain.antt =====
-- core/ready.py: the retry chain that a dependency is judged by, and the dependency ids of a job.
use sqlery.Prelude.{
  sym, Option-cases, subst, ℕ, zero, suc, ◌≤◌, ◌≡◌, ◌⊎◌, inl, inr, refl, Bool, true, false, ◌||◌,
  Option, none, some, List, [], ◌∷◌, ◌++◌, arith, mem, mem-append, Bool-cases, ◌==◌, ==_iff,
}
use sqlery.Ready.{Lookup, Dependency, is_over, follow, collect_ids, dependency_ids}

-- `n` retries lead from one attempt to another.
pub data Leads (db : Lookup) : Dependency → Dependency → ℕ → Type 0 where
  arrive : (d : Dependency) → Leads db d d zero
  retry :
      {d c e : Dependency} {n : ℕ}
      → is_over d.status ≡ true
      → db.latest_retry d.id ≡ some c
      → Leads db c e n
      → Leads db d e (suc n)

-- An attempt is the newest: it is not over, or nothing retries it.
abbrev pub IsNewest : Lookup → Dependency → Type 0
IsNewest db e = (is_over e.status ≡ false) ⊎ (db.latest_retry e.id ≡ none)

follow-newest : (db : Lookup) (hops : ℕ) (e : Dependency) → IsNewest db e → follow db hops e ≡ e
unfolding follow
follow-newest db zero e h = refl
follow-newest db (suc hops) e (inl running) = ground arith
follow-newest db (suc hops) e (inr last) = ground arith

-- A dependency is judged by the newest attempt of its chain, provided that the chain has no more
-- hops than the limit.
pub follow-Leads :
    (db : Lookup) (hops n : ℕ) {d e : Dependency}
    → Leads db d e n
    → IsNewest db e
    → n ≤ hops
    → follow db hops d ≡ e
unfolding follow
follow-Leads db hops n (arrive d) newest le = follow-newest db hops d newest
follow-Leads db zero n (retry over child rest) newest le = absurd (omega arith)
follow-Leads db (suc hops) (suc n) (retry over child rest) newest le =
    ground (arith, over, child, follow-Leads db hops n rest newest (omega arith))

-- The walk leads along retries, and along no more of them than the hops allow.
pub Leads-follow :
    (db : Lookup) (hops : ℕ) (d : Dependency)
    → (n : ℕ) × (n ≤ hops) × Leads db d (follow db hops d) n
unfolding follow
Leads-follow db zero d = (0, omega arith, arrive d)
Leads-follow db (suc hops) d = elim (Bool-cases (is_over d.status)) [
  | inr running ↦ let same : follow db (suc hops) d ≡ d = ground (arith, running) in stays same
  | inl over ↦ elim (Option-cases (db.latest_retry d.id)) [
    | inl last ↦ let same : follow db (suc hops) d ≡ d = ground (arith, over, last) in stays same
    | inr (c, child) ↦
        let (n, le, rest) = Leads-follow db hops c in
        let same : follow db (suc hops) d ≡ follow db hops c = ground (arith, over, child) in
        (
          suc n,
          omega (arith, le),
          subst (λ e. Leads db d e (suc n)) (sym same) (retry over child rest),
        )
  ]
]
  where
    stays :
        follow db (suc hops) d ≡ d
        → (n : ℕ) × (n ≤ suc hops) × Leads db d (follow db (suc hops) d) n
    stays same = (0, omega arith, subst (λ e. Leads db d e 0) (sym same) (arrive d))

-- No number occurs twice.
abbrev pub IsNodup : List ℕ → Type 0
IsNodup [] = Unit
IsNodup (x ∷ xs) = (mem x xs ≡ false) × IsNodup xs

IsNodup-snoc : (xs : List ℕ) (d : ℕ) → IsNodup xs → mem d xs ≡ false → IsNodup (xs ++ d ∷ [])
IsNodup-snoc [] d h fresh = (refl, tt)
IsNodup-snoc (x ∷ xs) d h fresh =
    (ground (arith, mem-append x xs (d ∷ [])), IsNodup-snoc xs d h.1 (ground arith))

collect_ids-IsNodup :
    (seen : List ℕ) (raws : List (Option ℕ)) → IsNodup seen → IsNodup (collect_ids seen raws)
unfolding collect_ids
collect_ids-IsNodup seen [] h = h
collect_ids-IsNodup seen (none ∷ raws) h = collect_ids-IsNodup seen raws h
collect_ids-IsNodup seen (some dep ∷ raws) h = elim (Bool-cases (mem dep seen)) [
  | inl old ↦ rw old (collect_ids-IsNodup seen raws h)
  | inr new ↦ rw new (collect_ids-IsNodup (seen ++ dep ∷ []) raws (IsNodup-snoc seen dep h new))
]

-- Whether an id is among the elements of the column that are numbers.
abbrev pub names : ℕ → List (Option ℕ) → Bool
names j [] = false
names j (none ∷ raws) = names j raws
names j (some dep ∷ raws) = (dep == j) || names j raws

mem-of_eq :
    (j dep : ℕ) (seen : List ℕ) → mem dep seen ≡ true → (dep == j) ≡ true → mem j seen ≡ true
mem-of_eq j dep seen h e = subst (λ z. mem z seen ≡ true) ((==_iff dep j).0 e) h

collect_ids-mem :
    (j : ℕ) (seen : List ℕ) (raws : List (Option ℕ))
    → mem j (collect_ids seen raws) ≡ mem j seen || names j raws
unfolding collect_ids
collect_ids-mem j seen [] = ground arith
collect_ids-mem j seen (none ∷ raws) = collect_ids-mem j seen raws
collect_ids-mem j seen (some dep ∷ raws) = elim (Bool-cases (mem dep seen)) [
  | inl old ↦ rw old (ground (arith, collect_ids-mem j seen raws, mem-of_eq j dep seen old))
  | inr new ↦
      rw new
        (ground (arith, collect_ids-mem j (seen ++ dep ∷ []) raws, mem-append j seen (dep ∷ [])))
]

-- The dependency ids hold every number of the column, nothing else, and each once.
dependency_ids_lem :
    (raws : List (Option ℕ))
    → IsNodup (dependency_ids raws) × ((j : ℕ) → mem j (dependency_ids raws) ≡ names j raws)
dependency_ids_lem raws = (collect_ids-IsNodup [] raws tt, λ j. collect_ids-mem j [] raws)
