-- ===== src/Partitions/Rows.antt =====
-- The rows of a partitioned table: where INSERT puts them, and what a dropped partition takes.
use sqlery.Prelude.{
  ℕ, ◌+◌, ◌≡◌, true, false, Option, none, some, List, [], ◌∷◌, ◌==◌, if◌then◌else◌, is_empty, arith,
  refl, Bool-cases, Option-cases, inl, inr, subst,
}
use sqlery.Partitions.{contains}
use sqlery.Partitions.Reclaim.{
  Partition, Table, insert_into, routed, insert_all, partition_has_rows, drop_partition,
}

-- How often a row is in a list, and in the partitions.
unfoldable pub count : ℕ → List ℕ → ℕ
count x [] = 0
count x (y ∷ ys) = (if y == x then 1 else 0) + count x ys

unfoldable pub count_in : ℕ → List Partition → ℕ
unfolding count
count_in x [] = 0
count_in x (p ∷ ps) = count x p.rows + count_in x ps

-- The partitions and the DEFAULT partition hold each row as often as it was inserted.
unfoldable pub IsWhole : Table → Type 0
IsWhole t = (x : ℕ) → count_in x t.partitions + count x t.default_rows ≡ count x t.inserted

count-insert_into :
    (x row : ℕ) (ps qs : List Partition)
    → insert_into row ps ≡ some qs
    → count_in x qs ≡ (if row == x then 1 else 0) + count_in x ps
unfolding insert_into count_in count
count-insert_into x row [] qs e = cc
count-insert_into x row (p ∷ ps) qs e = elim (Bool-cases (contains row p.range)) [
  | inl y ↦
      let same : some (record p { rows = row ∷ p.rows } ∷ ps) ≡ some qs = rw y at e in
      let equal : (record p { rows = row ∷ p.rows } ∷ ps) ≡ qs = cc in
      subst (λ u. count_in x u ≡ (if row == x then 1 else 0) + count_in x (p ∷ ps)) equal
        (omega arith)
  | inr n ↦ elim (Option-cases (insert_into row ps)) [
    | inl missing ↦ let bad : none ≡ some qs = rw (n, missing) at e in cc
    | inr (rest, found) ↦
        let same : some (p ∷ rest) ≡ some qs = rw (n, found) at e in
        let equal : (p ∷ rest) ≡ qs = cc in
        subst (λ u. count_in x u ≡ (if row == x then 1 else 0) + count_in x (p ∷ ps)) equal
          (omega (arith, count-insert_into x row ps rest found))
  ]
]

routed-IsWhole :
    (row : ℕ) (t : Table) (out : Option (List Partition))
    → insert_into row t.partitions ≡ out
    → IsWhole t
    → IsWhole (routed row t out)
unfolding IsWhole count
routed-IsWhole row t none e w = λ x. omega (arith, w x)
routed-IsWhole row t (some ps) e w =
    λ x. omega (arith, w x, count-insert_into x row t.partitions ps e)

pub insert_all-IsWhole : (rows : List ℕ) (t : Table) → IsWhole t → IsWhole (insert_all rows t)
unfolding insert_all
insert_all-IsWhole [] t w = w
insert_all-IsWhole (row ∷ rows) t w =
    insert_all-IsWhole rows (routed row t (insert_into row t.partitions))
      (routed-IsWhole row t (insert_into row t.partitions) refl w)

count-is_empty : (x : ℕ) (rows : List ℕ) → is_empty rows ≡ true → count x rows ≡ 0
unfolding count
count-is_empty x [] e = refl
count-is_empty x (row ∷ rows) e = cc

-- To drop the partitions of a name that hold no row takes no row.
count-drop_partition :
    (x n : ℕ) (ps : List Partition)
    → partition_has_rows n ps ≡ false
    → count_in x (drop_partition n ps) ≡ count_in x ps
unfolding partition_has_rows drop_partition count_in
count-drop_partition x n [] e = refl
count-drop_partition x n (p ∷ ps) e = elim (Bool-cases (p.name == n)) [
  | inl y ↦
      let drained : is_empty p.rows ≡ true = ground (arith, e, y) in
      rw y (
        omega (
          arith,
          count-is_empty x p.rows drained,
          count-drop_partition x n ps (ground (arith, e, y)),
        ))
  | inr other ↦ rw other (omega (arith, count-drop_partition x n ps (ground (arith, e, other))))
]

pub drop_partition-IsWhole :
    (n : ℕ) (t : Table)
    → partition_has_rows n t.partitions ≡ false
    → IsWhole t
    → IsWhole (record t { partitions = drop_partition n t.partitions })
unfolding IsWhole
drop_partition-IsWhole n t e w = λ x. omega (arith, w x, count-drop_partition x n t.partitions e)
