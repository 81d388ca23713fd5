-- ===== src/Partitions/Ahead.antt =====
-- ensure_live_partitions of src/sqlery/core/partitioning.py: its end, and the instants that it covers.
use sqlery.Prelude.{
  here, there, IsIn, ℕ, zero, suc, ◌+◌, ◌*◌, ◌≤◌, ◌<◌, ◌≡◌, ◌≢◌, true, Option, none, some, List,
  ◌∷◌, leb, length, arith, refl, Bool-cases, Option-cases, inl, inr, ◌⊎◌,
}
use sqlery.Partitions.{
  attached, Range, contains, covering, Answer, made, counted, candidate, ensure_loop, live_width,
  bucket, ahead_of, ensure_live_partitions,
}
use sqlery.Partitions.Covers.{
  ending, starting, starting_mono, ending-le, starting-le, ending-covering, attached-keeps,
  attached-within, attached-made, covering-contains,
}
use sqlery.Partitions.Steps.{IsEnsured, extends, candidate-free, goes_on}

module _ (answer : Range → Answer) (width until : ℕ) (positive : 0 < width) where
  -- The loop on `fuel` iterations ends at the latest with one for each jump, clip and full width.
  abbrev Ends : ℕ → Type 0
  Ends fuel =
      (q cursor created : ℕ) (table existing : List Range)
      → ((x : Range) → IsIn x table → IsIn x existing)
      → ((x : Range) → IsIn x existing → IsIn x table ⊎ (answer x ≢ made))
      → ending cursor existing + starting cursor existing + q ≤ fuel
      → until ≤ cursor + q * width
      → IsEnsured answer until cursor table
          (ensure_loop answer width until fuel cursor created table existing)

  module _ (fuel q cursor created : ℕ) (table existing : List Range) (ih : Ends fuel)
      (sub : (x : Range) → IsIn x table → IsIn x existing)
      (good : (x : Range) → IsIn x existing → IsIn x table ⊎ (answer x ≢ made))
      (enough : ending cursor existing + starting cursor existing + q ≤ suc fuel)
      (far : until ≤ cursor + q * width) where
    jumps :
        (c : Range)
        → covering cursor existing ≡ some c
        → IsEnsured answer until cursor table
            (ensure_loop answer width until fuel c.hi created table existing)
    unfolding contains
    jumps c e =
        let less = ending-covering cursor existing c e in
        let found = covering-contains cursor existing c e in
        let held : contains cursor c ≡ true = found.1 in
        extends answer width until positive cursor c.hi table table c
          (ensure_loop answer width until fuel c.hi created table existing) (λ x p. p)
          (good c found.0) (λ t h k. ground (arith, held))
          (ih q c.hi created table existing sub good
            (omega
              (arith, less.0, less.1, starting_mono cursor c.hi existing (omega (arith, less.0))))
            (omega (arith, less.0, far)))

    module _ (r : Range) (same : candidate answer width until cursor existing ≡ r) where
      known :
          (x : Range)
          → IsIn x (r ∷ existing)
          → IsIn x (attached (answer r) r table) ⊎ (answer x ≢ made)
      known x here = attached-made (answer x) x table
      known x (there p) = elim (good x p) [
        | inl kept ↦ inl (attached-keeps (answer r) r x table kept)
        | inr refused ↦ inr refused
      ]

    attaches :
        cursor < until
        → IsEnsured answer until cursor table (
            ensure_loop answer width until fuel
              (candidate answer width until cursor existing).hi
              (created + counted answer width until (candidate answer width until cursor existing))
              (attached
                (answer (candidate answer width until cursor existing))
                (candidate answer width until cursor existing)
                table)
              (candidate answer width until cursor existing ∷ existing))
    unfolding candidate contains
    attaches goes =
        let r : Range = candidate answer width until cursor existing in
        let (q', enough', far') =
          goes_on answer width until positive fuel q cursor existing goes enough far in
        extends answer width until positive cursor r.hi table (attached (answer r) r table) r
          (ensure_loop answer width until fuel r.hi (created + counted answer width until r)
            (attached (answer r) r table) (r ∷ existing))
          (λ x p. attached-keeps (answer r) r x table p) (attached-made (answer r) r table)
          (λ t h k. ground arith)
          (ih q' r.hi (created + counted answer width until r) (attached (answer r) r table)
            (r ∷ existing) (λ x p. attached-within (answer r) r x table existing sub p)
            (known r refl) enough' far')

  ensure_loop-IsEnsured : (fuel : ℕ) → Ends fuel
  unfolding ensure_loop
  ensure_loop-IsEnsured zero zero cursor created table existing sub good enough far =
      ((λ r p. p), λ t h k. absurd (omega arith))
  ensure_loop-IsEnsured zero (suc q) cursor created table existing sub good enough far =
      absurd (omega arith)
  ensure_loop-IsEnsured (suc fuel) q cursor created table existing sub good enough far =
      elim (Bool-cases (leb until cursor)) [
        | inl over ↦ rw over ((λ r p. p), λ t h k. absurd (ground (arith, over)))
        | inr goes ↦ rw goes (elim (Option-cases (covering cursor existing)) [
          | inl free ↦ rw free (
              rw (candidate-free answer width until positive cursor table existing sub free) (
                attaches fuel q cursor created table existing (ensure_loop-IsEnsured fuel) sub good
                  enough far (ground (arith, goes))))
          | inr (c, e) ↦ rw e (
              jumps fuel q cursor created table existing (ensure_loop-IsEnsured fuel) sub good
                enough far c e)
        ])
      ]

-- The instant that the call provides up to.
abbrev pub ahead : (interval lookahead : Option ℕ) → (premake now : ℕ) → ℕ
ahead interval lookahead premake now = now + ahead_of (live_width interval) premake lookahead

module _ (answer : Range → Answer) (day_start : ℕ → ℕ) (interval lookahead : Option ℕ)
    (premake now : ℕ) where
  width_positive : 0 < live_width interval
  unfolding live_width
  width_positive = go interval
    where
      go : (interval : Option ℕ) → 0 < live_width interval
      go none = omega arith
      go (some n) = ground arith

  -- With the advisory lock, and as long as the partitions that exist and the widths up to the end are
  -- few enough for the 10000 iterations (two for each partition, one for each width), the call never
  -- creates an overlap, which would be an error, keeps every partition, and every instant from the
  -- first bucket up to the end is in a partition, or in a range for which the database refused one:
  -- its name is taken, or the DEFAULT partition has rows of it.
  pub ensure_live_partitions-IsEnsured :
      (q : ℕ) (table : List Range)
      → length table + length table + q ≤ 10000
      → ahead interval lookahead premake now
        ≤ bucket day_start (live_width interval) now + q * live_width interval
      → IsEnsured answer
          (ahead interval lookahead premake now)
          (bucket day_start (live_width interval) now)
          table
          (ensure_live_partitions answer day_start true interval premake lookahead now table)
  unfolding ensure_live_partitions
  ensure_live_partitions-IsEnsured q table few far =
      ensure_loop-IsEnsured answer (live_width interval) (ahead interval lookahead premake now)
        width_positive 10000 q (bucket day_start (live_width interval) now) 0 table table (λ x p. p)
        (λ x p. inl p)
        (omega (
          arith,
          ending-le (bucket day_start (live_width interval) now) table,
          starting-le (bucket day_start (live_width interval) now) table,
        ))
        far
