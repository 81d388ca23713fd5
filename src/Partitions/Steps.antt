-- ===== src/Partitions/Steps.antt =====
-- One step of the loop of ensure_live_partitions in src/sqlery/core/partitioning.py.
use sqlery.Prelude.{
  IsIn, ltb→lt, ℕ, zero, suc, ◌+◌, ◌*◌, ◌≤◌, ◌<◌, ◌≡◌, ◌≢◌, true, false, ◌&&◌, none, List, ◌∷◌, ltb,
  arith, Bool-cases, inl, inr, ◌⊎◌,
}
use sqlery.Partitions.{
  Range, contains, covering, clip, overlaps, Answer, made, Ensured, done, raised, candidate,
}
use sqlery.Partitions.Covers.{
  ending, starting, ending_mono, starting_mono, clip-lt, clip-starting, clip-IsIn, covering-IsIn,
  overlaps-IsIn,
}

module _ (answer : Range → Answer) (until : ℕ) where
  -- A partition of the table holds the instant, or a range that holds it was refused: its name is
  -- taken, or the DEFAULT partition has rows of it.
  abbrev pub IsCovered : List Range → ℕ → Type 0
  IsCovered table t = (r : Range) × (contains t r ≡ true) × (IsIn r table ⊎ (answer r ≢ made))

  -- The call ends without an error, keeps the partitions and covers what lies before its end.
  abbrev pub IsEnsured : (cursor : ℕ) → List Range → Ensured → Type 0
  IsEnsured cursor table (done table' created) =
      ((r : Range) → IsIn r table → IsIn r table')
      × ((t : ℕ) → cursor ≤ t → t < until → IsCovered table' t)
  IsEnsured cursor table (raised table') = ⊥

module _ (answer : Range → Answer) (width until : ℕ) (positive : 0 < width) where
  -- What a step from `cursor` to `next` covers is covered, and the rest by the steps that follow.
  pub extends :
      (cursor next : ℕ) (table table' : List Range) (r : Range) (out : Ensured)
      → ((x : Range) → IsIn x table → IsIn x table')
      → IsIn r table' ⊎ (answer r ≢ made)
      → ((t : ℕ) → cursor ≤ t → t < next → contains t r ≡ true)
      → IsEnsured answer until next table' out
      → IsEnsured answer until cursor table out
  extends cursor next table table' r (raised final) keeps held inside ih = ih
  extends cursor next table table' r (done final created) keeps held inside ih =
      ((λ x p. ih.0 x (keeps x p)), covers)
    where
      stays : IsIn r table' ⊎ (answer r ≢ made) → IsIn r final ⊎ (answer r ≢ made)
      stays (inl p) = inl (ih.0 r p)
      stays (inr refused) = inr refused

      covers : (t : ℕ) → cursor ≤ t → t < until → IsCovered answer until final t
      covers t h k = elim (Bool-cases (ltb t next)) [
        | inl before ↦ (r, inside t h (omega (arith, ltb→lt t next before)), stays held)
        | inr after ↦ ih.1 t (ground (arith, after)) k
      ]

  pub candidate-free :
      (cursor : ℕ) (table existing : List Range)
      → ((x : Range) → IsIn x table → IsIn x existing)
      → covering cursor existing ≡ none
      → overlaps (candidate answer width until cursor existing) table ≡ false
  unfolding candidate contains
  candidate-free cursor table existing sub e =
      overlaps-IsIn (candidate answer width until cursor existing) table apart
    where
      apart :
          (x : Range)
          → IsIn x table
          → (ltb x.lo (clip cursor (cursor + width) existing) && ltb cursor x.hi) ≡ false
      apart x p =
          let outside = covering-IsIn cursor x existing (sub x p) e in
          ground (arith, outside, clip-IsIn cursor (cursor + width) x existing (sub x p))

  -- A step that attaches goes past the full width, or past the start of one more range.
  pub goes_on :
      (fuel q cursor : ℕ) (existing : List Range)
      → cursor < until
      → ending cursor existing + starting cursor existing + q ≤ suc fuel
      → until ≤ cursor + q * width
      → (q' : ℕ) × (ending
              (clip cursor (cursor + width) existing)
              (candidate answer width until cursor existing ∷ existing)
            + starting
                (clip cursor (cursor + width) existing)
                (candidate answer width until cursor existing ∷ existing)
            + q'
          ≤ fuel)
        × (until ≤ clip cursor (cursor + width) existing + q' * width)
  unfolding candidate ending starting
  goes_on fuel zero cursor existing before enough far = absurd (omega arith)
  goes_on fuel (suc q) cursor existing before enough far =
      let past = clip-lt cursor (cursor + width) existing (omega arith) in
      let fewer =
        ending_mono cursor (clip cursor (cursor + width) existing) existing
          (omega (arith, past.0)) in
      elim (clip-starting cursor (cursor + width) existing (omega arith)) [
        | inl full ↦
            let less =
              starting_mono cursor (clip cursor (cursor + width) existing) existing
                (omega (arith, past.0)) in
            (q, ground (arith, fewer, less, past.0), omega (arith, full, far))
        | inr one ↦ (suc q, ground (arith, fewer, one, past.0), omega (arith, past.0, far))
      ]
