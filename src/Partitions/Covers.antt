-- ===== src/Partitions/Covers.antt =====
-- The lists of ranges in ensure_live_partitions of src/sqlery/core/partitioning.py: what ends and
-- starts after an instant, and what a new range meets.
use sqlery.Prelude.{
  here, there, IsIn, ℕ, suc, ◌≤◌, ◌<◌, ◌≡◌, ◌≢◌, true, false, ◌&&◌, none, some, List, [], ◌∷◌, sym,
  ◌∙◌, subst, ltb, leb, length, arith, refl, Bool-cases, inl, inr, ◌⊎◌, if◌then◌else◌,
}
use sqlery.Partitions.{
  attached, Range, contains, covering, clip, overlaps, Answer, made, name_taken, attach_conflict,
}

-- The ranges that end after `t`, and those that start after it.
unfoldable pub ending : ℕ → List Range → ℕ
ending t [] = 0
ending t (r ∷ rs) = if ltb t r.hi then suc (ending t rs) else ending t rs

unfoldable pub starting : ℕ → List Range → ℕ
starting t [] = 0
starting t (r ∷ rs) = if ltb t r.lo then suc (starting t rs) else starting t rs

pub ending-le : (t : ℕ) (rs : List Range) → ending t rs ≤ length rs
unfolding ending
ending-le t [] = omega arith
ending-le t (r ∷ rs) = ground (arith, ending-le t rs)

pub starting-le : (t : ℕ) (rs : List Range) → starting t rs ≤ length rs
unfolding starting
starting-le t [] = omega arith
starting-le t (r ∷ rs) = ground (arith, starting-le t rs)

pub ending_mono : (t u : ℕ) (rs : List Range) → t ≤ u → ending u rs ≤ ending t rs
unfolding ending
ending_mono t u [] h = omega arith
ending_mono t u (r ∷ rs) h = ground (arith, ending_mono t u rs h)

pub starting_mono : (t u : ℕ) (rs : List Range) → t ≤ u → starting u rs ≤ starting t rs
unfolding starting
starting_mono t u [] h = omega arith
starting_mono t u (r ∷ rs) h = ground (arith, starting_mono t u rs h)

-- A range that contains `t` ends no more after its own end.
pub ending-covering :
    (t : ℕ) (rs : List Range) (c : Range)
    → covering t rs ≡ some c
    → (t < c.hi) × (ending c.hi rs < ending t rs)
unfolding ending covering contains
ending-covering t [] c h = cc
ending-covering t (r ∷ rs) c h = elim (Bool-cases (leb r.lo t && ltb t r.hi)) [
  | inl inside ↦
      let same : some r ≡ some c = rw inside at h in
      let equal : r.hi ≡ c.hi = cc in ground (arith, equal, ending_mono t c.hi rs)
  | inr other ↦
      let rest : covering t rs ≡ some c = rw (other, contains) at h in
      let ih = ending-covering t rs c rest in
      let first = ih.0 in let second = ih.1 in ground (arith, first, second)
]

-- The clipped end is after the cursor and no later than the width; a clip is at the start of a range.
pub clip-lt : (t hi : ℕ) (rs : List Range) → t < hi → (t < clip t hi rs) × (clip t hi rs ≤ hi)
unfolding clip
clip-lt t hi [] h = (h, omega arith)
clip-lt t hi (r ∷ rs) h =
    let ih = clip-lt t hi rs h in
    let first = ih.0 in let second = ih.1 in ground (arith, first, second)

pub clip-starting :
    (t hi : ℕ) (rs : List Range)
    → t < hi
    → (clip t hi rs ≡ hi) ⊎ (starting (clip t hi rs) rs < starting t rs)
unfolding clip starting
clip-starting t hi [] h = inl refl
clip-starting t hi (r ∷ rs) h = elim (Bool-cases (ltb t r.lo && ltb r.lo (clip t hi rs))) [
  | inl inside ↦
      let first : clip t hi (r ∷ rs) ≡ r.lo = rw (inside, clip) refl in
      inr (
        subst (λ u. starting u (r ∷ rs) < starting t (r ∷ rs)) (sym first)
          (ground (arith, starting_mono t r.lo rs)))
  | inr other ↦
      let later : clip t hi (r ∷ rs) ≡ clip t hi rs = rw (other, clip) refl in
      elim (clip-starting t hi rs h) [
        | inl e ↦ inl (later ∙ e)
        | inr less ↦ inr (
            subst (λ u. starting u (r ∷ rs) < starting t (r ∷ rs)) (sym later)
              (ground (arith, less, clip-lt t hi rs h)))
      ]
]

-- A range of the list that the clip meets starts where it ends, or later, or not after the cursor.
pub clip-IsIn :
    (t hi : ℕ) (r : Range) (rs : List Range) → IsIn r rs → (r.lo ≤ t) ⊎ (clip t hi rs ≤ r.lo)
unfolding clip
clip-IsIn t hi r [] p = elim p [ ]
clip-IsIn t hi r (x ∷ xs) here = ground arith
clip-IsIn t hi r (x ∷ xs) (there p) = elim (clip-IsIn t hi r xs p) [
  | inl le ↦ inl le
  | inr le ↦ inr (ground (arith, le))
]

pub covering-IsIn :
    (t : ℕ) (r : Range) (rs : List Range) → IsIn r rs → covering t rs ≡ none → contains t r ≡ false
unfolding covering
covering-IsIn t r [] p e = elim p [ ]
covering-IsIn t r (x ∷ xs) here e = elim (Bool-cases (contains t r)) [
  | inl y ↦ let bad : some r ≡ none = rw y at e in cc
  | inr n ↦ n
]
covering-IsIn t r (x ∷ xs) (there p) e = elim (Bool-cases (contains t x)) [
  | inl y ↦ let bad : some x ≡ none = rw y at e in cc
  | inr n ↦ covering-IsIn t r xs p (rw n at e)
]

pub overlaps-IsIn :
    (r : Range) (table : List Range)
    → ((x : Range) → IsIn x table → (ltb x.lo r.hi && ltb r.lo x.hi) ≡ false)
    → overlaps r table ≡ false
unfolding overlaps
overlaps-IsIn r [] apart = refl
overlaps-IsIn r (x ∷ xs) apart = rw (apart x here) (overlaps-IsIn r xs (λ y p. apart y (there p)))

pub attached-keeps :
    (a : Answer) (r x : Range) (table : List Range) → IsIn x table → IsIn x (attached a r table)
attached-keeps made r x table p = there p
attached-keeps name_taken r x table p = p
attached-keeps attach_conflict r x table p = p

pub attached-within :
    (a : Answer) (r x : Range) (table existing : List Range)
    → ((y : Range) → IsIn y table → IsIn y existing)
    → IsIn x (attached a r table)
    → IsIn x (r ∷ existing)
attached-within made r x table existing sub here = here
attached-within made r x table existing sub (there p) = there (sub x p)
attached-within name_taken r x table existing sub p = there (sub x p)
attached-within attach_conflict r x table existing sub p = there (sub x p)

pub attached-made :
    (a : Answer) (r : Range) (table : List Range) → IsIn r (attached a r table) ⊎ (a ≢ made)
attached-made made r table = inl here
attached-made name_taken r table = inr (λ e. cc)
attached-made attach_conflict r table = inr (λ e. cc)

pub covering-contains :
    (t : ℕ) (rs : List Range) (c : Range)
    → covering t rs ≡ some c
    → IsIn c rs × (contains t c ≡ true)
unfolding covering
covering-contains t [] c e = cc
covering-contains t (r ∷ rs) c e = elim (Bool-cases (contains t r)) [
  | inl y ↦
      let same : some r ≡ some c = rw y at e in
      let equal : r ≡ c = cc in subst (λ x. IsIn x (r ∷ rs) × (contains t x ≡ true)) equal (here, y)
  | inr n ↦ let ih = covering-contains t rs c (rw n at e) in (there ih.0, ih.1)
]
