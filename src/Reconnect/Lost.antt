-- ===== src/Reconnect/Lost.antt =====
-- The walk along the causes of an exception, is_connection_lost of src/sqlery/core/db_resilience.py.
use sqlery.Prelude.{
  ◌∙◌, ◌⊎◌, ==_self, ==_iff, ℕ, zero, suc, ◌≤◌, ◌<◌, ◌≡◌, Bool, true, false, Option, none, some,
  List, [], ◌∷◌, ◌==◌, mem, length, get_elem?, arith, refl, ap, subst, sym, Bool-cases, inl, inr,
  if◌then◌else◌, ◌↔◌,
}
use sqlery.Reconnect.{Raised, means_lost, next_of, visit, chain_loop, is_connection_lost}

-- The exception `e` is the one of that number, or one that it was raised from.
pub data IsBehind (heap : List Raised) (e : Raised) : Option ℕ → Type 0 where
  itself : (i : ℕ) → get_elem? heap i ≡ some e → IsBehind heap e (some i)
  from :
      (i : ℕ) (d : Raised)
      → get_elem? heap i ≡ some d
      → IsBehind heap e (next_of d)
      → IsBehind heap e (some i)

-- The numbers below `n` that the walk has not seen.
unseen : List ℕ → ℕ → ℕ
unseen seen zero = 0
unseen seen (suc n) = if mem n seen then unseen seen n else suc (unseen seen n)

unseen-le : (seen : List ℕ) (n : ℕ) → unseen seen n ≤ n
unfolding unseen
unseen-le seen zero = omega arith
unseen-le seen (suc n) = ground (arith, unseen-le seen n)

unseen-more : (i : ℕ) (seen : List ℕ) (n : ℕ) → unseen (i ∷ seen) n ≤ unseen seen n
unfolding unseen
unseen-more i seen zero = omega arith
unseen-more i seen (suc n) = ground (arith, unseen-more i seen n)

unseen-found :
    (i : ℕ) (seen : List ℕ) (n : ℕ)
    → i < n
    → mem i seen ≡ false
    → unseen (i ∷ seen) n < unseen seen n
unfolding unseen
unseen-found i seen zero small new = absurd (omega arith)
unseen-found i seen (suc n) small new = elim (Bool-cases (i == n)) [
  | inl same ↦
      let equal : i ≡ n = (==_iff i n).0 same in
      let fresh : mem n seen ≡ false = subst (λ k. mem k seen ≡ false) equal new in
      rw (same, fresh) (omega (arith, unseen-more i seen n))
  | inr other ↦
      let below : i < n = ground arith in rw other (ground (arith, unseen-found i seen n below new))
]

get_elem?-lt :
    (heap : List Raised) (i : ℕ) (e : Raised) → get_elem? heap i ≡ some e → i < length heap
get_elem?-lt [] i e h = cc
get_elem?-lt (x ∷ xs) zero e h = omega arith
get_elem?-lt (x ∷ xs) (suc i) e h = omega (arith, get_elem?-lt xs i e h)

module _ (heap : List Raised) where
  -- An object of one number.
  get_elem?-at :
      {k i : ℕ} {e : Raised}
      → some k ≡ some i
      → get_elem? heap k ≡ some e
      → get_elem? heap i ≡ some e
  get_elem?-at same f = cc

  abbrev Ends : Option Bool → Type 0
  Ends out = (b : Bool) × (out ≡ some b)

  visit-Ends :
      (is_seen : Bool) (found : Option Raised) (go_on : Raised → Option Bool)
      → (is_seen ≡ false → (e : Raised) → found ≡ some e → Ends (go_on e))
      → Ends (visit is_seen found go_on)
  visit-Ends true found go_on h = (false, refl)
  visit-Ends false none go_on h = (false, refl)
  visit-Ends false (some e) go_on h = elim (Bool-cases (means_lost e)) [
    | inl y ↦ (true, rw y refl)
    | inr n ↦ let rest = h refl e refl in (rest.0, rw n rest.1)
  ]

  chain_loop-Ends :
      (fuel : ℕ) (seen : List ℕ) (exc : Option ℕ)
      → unseen seen (length heap) < fuel
      → Ends (chain_loop heap fuel seen exc)
  unfolding chain_loop
  chain_loop-Ends zero seen exc h = absurd (omega arith)
  chain_loop-Ends (suc fuel) seen none h = (false, refl)
  chain_loop-Ends (suc fuel) seen (some i) h =
      visit-Ends (mem i seen) (get_elem? heap i) (λ e. chain_loop heap fuel (i ∷ seen) (next_of e))
        (λ new e f.
          chain_loop-Ends fuel (i ∷ seen) (next_of e)
            (omega (arith, h, unseen-found i seen (length heap) (get_elem?-lt heap i e f) new)))

  -- A lost connection behind the exception.
  abbrev pub HasLost : Option ℕ → Type 0
  HasLost exc = (e : Raised) × IsBehind heap e exc × (means_lost e ≡ true)

  visit-true :
      (is_seen : Bool) (i : ℕ) (found : Option Raised) (go_on : Raised → Option Bool)
      → get_elem? heap i ≡ found
      → ((e : Raised) → go_on e ≡ some true → HasLost (next_of e))
      → visit is_seen found go_on ≡ some true
      → HasLost (some i)
  visit-true true i found go_on f h t = cc
  visit-true false i none go_on f h t = cc
  visit-true false i (some e) go_on f h t = elim (Bool-cases (means_lost e)) [
    | inl y ↦ (e, itself i f, y)
    | inr n ↦ let rest = h e (rw n at t) in (rest.0, from i e f rest.1, rest.2)
  ]

  chain_loop-true :
      (fuel : ℕ) (seen : List ℕ) (exc : Option ℕ)
      → chain_loop heap fuel seen exc ≡ some true
      → HasLost exc
  unfolding chain_loop
  chain_loop-true zero seen exc t = cc
  chain_loop-true (suc fuel) seen none t = cc
  chain_loop-true (suc fuel) seen (some i) t =
      visit-true (mem i seen) i (get_elem? heap i)
        (λ e. chain_loop heap fuel (i ∷ seen) (next_of e)) refl
        (λ e. chain_loop-true fuel (i ∷ seen) (next_of e)) t

  -- What was seen is not lost, and leads to what was seen or to the exception that is next.
  abbrev IsClosed : List ℕ → Option ℕ → Type 0
  IsClosed seen exc =
      (i : ℕ) (e : Raised)
      → mem i seen ≡ true
      → get_elem? heap i ≡ some e
      → (means_lost e ≡ false)
        × (((j : ℕ) × (next_of e ≡ some j) × (mem j seen ≡ true)) ⊎ (next_of e ≡ exc))

  -- The walk is in a cycle: nothing that it can reach is lost.
  seen-IsBehind :
      (seen : List ℕ) (i : ℕ) (e : Raised) (y : Option ℕ)
      → IsClosed seen (some i)
      → mem i seen ≡ true
      → IsBehind heap e y
      → (j : ℕ) → y ≡ some j
      → mem j seen ≡ true
      → means_lost e ≡ false
  seen-IsBehind seen i e y closed back (itself k f) j same m =
      (closed j e m (get_elem?-at same f)).0
  seen-IsBehind seen i e y closed back (from k d f rest) j same m =
      elim (closed j d m (get_elem?-at same f)).1 [
        | inl (l, to, p) ↦ seen-IsBehind seen i e (next_of d) closed back rest l to p
        | inr to ↦ seen-IsBehind seen i e (next_of d) closed back rest i to back
      ]

  -- An exception that is not lost leads to what is behind it.
  IsBehind-next :
      (i : ℕ) (e : Raised) (y : Option ℕ) (d : Raised)
      → IsBehind heap e y
      → y ≡ some i
      → get_elem? heap i ≡ some d
      → means_lost d ≡ false
      → means_lost e ≡ true
      → IsBehind heap e (next_of d)
  IsBehind-next i e y d (itself k f) same g n t =
      let at : get_elem? heap i ≡ some e = get_elem?-at same f in
      let equal : d ≡ e = cc in absurd (cc)
  IsBehind-next i e y d (from k b f rest) same g n t =
      let at : get_elem? heap i ≡ some b = get_elem?-at same f in
      let equal : b ≡ d = cc in subst (λ u. IsBehind heap e (next_of u)) equal rest

  IsClosed-next :
      (seen : List ℕ) (i : ℕ) (d : Raised)
      → get_elem? heap i ≡ some d
      → means_lost d ≡ false
      → IsClosed seen (some i)
      → IsClosed (i ∷ seen) (next_of d)
  IsClosed-next seen i d g n closed k e m f = elim (Bool-cases (i == k)) [
    | inl own ↦
        let same : i ≡ k = (==_iff i k).0 own in
        let at : get_elem? heap i ≡ some e = rw same f in
        let equal : d ≡ e = cc in
        (subst (λ u. means_lost u ≡ false) equal n, inr (ap next_of (sym equal)))
    | inr other ↦
        let old : mem k seen ≡ true = rw other at m in
        let known = closed k e old f in
        (
          known.0,
          elim known.1 [
            | inl (l, to, p) ↦ inl (l, to, ground (arith, p))
            | inr to ↦ inl (i, to, rw (==_self i) refl)
          ],
        )
  ]

  visit-false :
      (is_seen : Bool) (seen : List ℕ) (i : ℕ) (found : Option Raised)
      (go_on : Raised → Option Bool) (e : Raised)
      → mem i seen ≡ is_seen
      → get_elem? heap i ≡ found
      → IsClosed seen (some i)
      → ((d : Raised)
          → IsClosed (i ∷ seen) (next_of d)
          → go_on d ≡ some false
          → IsBehind heap e (next_of d)
          → means_lost e ≡ false)
      → visit is_seen found go_on ≡ some false
      → IsBehind heap e (some i)
      → means_lost e ≡ false
  visit-false true seen i found go_on e m f closed h t behind =
      seen-IsBehind seen i e (some i) closed m behind i refl m
  visit-false false seen i none go_on e m f closed h t behind = gone (some i) behind refl
    where
      gone : (y : Option ℕ) → IsBehind heap e y → y ≡ some i → means_lost e ≡ false
      gone y (itself k g) same = let at : get_elem? heap i ≡ some e = get_elem?-at same g in cc
      gone y (from k d g rest) same = let at : get_elem? heap i ≡ some d = get_elem?-at same g in cc
  visit-false false seen i (some d) go_on e m f closed h t behind =
      elim (Bool-cases (means_lost e)) [
        | inr fine ↦ fine
        | inl lost ↦ elim (Bool-cases (means_lost d)) [
          | inl y ↦ let no : some true ≡ some false = rw y at t in cc
          | inr n ↦
              h d (IsClosed-next seen i d f n closed) (rw n at t)
                (IsBehind-next i e (some i) d behind refl f n lost)
        ]
      ]

  chain_loop-false :
      (fuel : ℕ) (seen : List ℕ) (exc : Option ℕ) (e : Raised)
      → IsClosed seen exc
      → chain_loop heap fuel seen exc ≡ some false
      → IsBehind heap e exc
      → means_lost e ≡ false
  unfolding chain_loop
  chain_loop-false zero seen exc e closed t behind = cc
  chain_loop-false (suc fuel) seen none e closed t behind = elim behind [ ]
  chain_loop-false (suc fuel) seen (some i) e closed t behind =
      visit-false (mem i seen) seen i (get_elem? heap i)
        (λ d. chain_loop heap fuel (i ∷ seen) (next_of d)) e refl refl closed
        (λ d next_closed. chain_loop-false fuel (i ∷ seen) (next_of d) e next_closed) t behind

-- With more fuel than there are exceptions the walk ends, in a cycle of causes too, and it answers
-- that the connection is lost just if that is what the exception, or one behind it, says.
pub is_connection_lost-HasLost :
    (heap : List Raised) (fuel : ℕ) (exc : Option ℕ)
    → length heap < fuel
    → (b : Bool) × (is_connection_lost heap fuel exc ≡ some b) × ((b ≡ true) ↔ HasLost heap exc)
is_connection_lost-HasLost heap fuel exc enough =
    let ended =
      chain_loop-Ends heap fuel [] exc (omega (arith, enough, unseen-le [] (length heap))) in
    (
      ended.0,
      ended.1,
      (
        λ t. chain_loop-true heap fuel [] exc (ended.1 ∙ ap some t),
        λ lost. is_true ended.0 ended.1 lost,
      ),
    )
  where
    is_true : (b : Bool) → chain_loop heap fuel [] exc ≡ some b → HasLost heap exc → b ≡ true
    is_true true e lost = refl
    is_true false e (x, behind, m) =
        let no = chain_loop-false heap fuel [] exc x (λ i d h. cc) e behind in cc
