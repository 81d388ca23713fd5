-- ===== src/Partitions/Drained.antt =====
-- What reclaim_drained_live_partitions of src/sqlery/core/partitioning.py drops when nothing is in its
-- way.
use sqlery.Prelude.{
  here, there, IsIn, ℕ, ◌+◌, ◌≡◌, Bool, true, false, ◌&&◌, ◌||◌, not, none, some, List, [], ◌∷◌,
  leb, ◌==◌, if◌then◌else◌, arith, refl, Bool-cases, inl, inr, ◌<◌, Option, ==_self,
}
use sqlery.Partitions.Kept.{table_of}
use sqlery.Partitions.Reclaim.{
  insert_all, Partition, Table, drop, skip_has_rows, check_rows, take_lock,
  decide_partition_reclaim, partition_has_rows, drop_partition, no_trouble, Session, decided,
  try_reclaim_one, reclaim_loop, live_grace, listed, insert_sorted, reclaim_drained_live_partitions,
}

-- No row arrives, and no transaction fails.
abbrev pub quiet : Session
quiet = record {
  before_scan = [];
  before_lock = [];
  scan = no_trouble;
  lock = no_trouble;
  in_snapshot = false;
}

unfoldable pub has_partition : ℕ → List Partition → Bool
has_partition n [] = false
has_partition n (p ∷ ps) = p.name == n || has_partition n ps

has_partition-drop_partition :
    (n m : ℕ) (ps : List Partition)
    → has_partition n (drop_partition m ps) ≡ has_partition n ps && not (m == n)
unfolding has_partition drop_partition
has_partition-drop_partition n m [] = refl
has_partition-drop_partition n m (p ∷ ps) = elim (Bool-cases (p.name == m)) [
  | inl y ↦ rw y (ground (arith, y, has_partition-drop_partition n m ps))
  | inr other ↦ rw other (ground (arith, other, has_partition-drop_partition n m ps))
]

has_rows-drop_partition :
    (n m : ℕ) (ps : List Partition)
    → partition_has_rows n ps ≡ false
    → partition_has_rows n (drop_partition m ps) ≡ false
unfolding partition_has_rows drop_partition
has_rows-drop_partition n m [] e = refl
has_rows-drop_partition n m (p ∷ ps) e = elim (Bool-cases (p.name == m)) [
  | inl y ↦ rw y (has_rows-drop_partition n m ps (ground (arith, e)))
  | inr other ↦ rw other (ground (arith, e, has_rows-drop_partition n m ps))
]

without : ℕ → Table → Table
without n t = record t { partitions = drop_partition n t.partitions }

module _ (now grace : ℕ) where
  module _ (upper : ℕ) (late : leb now (upper + grace) ≡ false) where
    decide_first : decide_partition_reclaim (some upper) now grace none false none ≡ check_rows
    unfolding decide_partition_reclaim
    decide_first = rw late refl

    decide_rows :
        decide_partition_reclaim (some upper) now grace (some true) false none ≡ skip_has_rows
    unfolding decide_partition_reclaim
    decide_rows = rw late refl

    decide_drained :
        decide_partition_reclaim (some upper) now grace (some false) false none ≡ take_lock
    unfolding decide_partition_reclaim
    decide_drained = rw late refl

    decide_locked :
        decide_partition_reclaim (some upper) now grace (some false) false (some true) ≡ drop
    unfolding decide_partition_reclaim
    decide_locked = rw late refl

    -- A quiet round drops a drained partition, and leaves one with rows.
    try_reclaim_one-quiet :
        (n : ℕ) (t : Table) (b : Bool)
        → partition_has_rows n t.partitions ≡ b
        → try_reclaim_one now grace n upper quiet t
          ≡ (if b then (t, decided skip_has_rows) else (without n t, decided drop))
    unfolding try_reclaim_one insert_all without
    try_reclaim_one-quiet n t true e = rw decide_first (rw e (rw decide_rows refl))
    try_reclaim_one-quiet n t false e =
        rw decide_first (rw e (rw decide_drained (rw e (rw decide_locked refl))))

  -- A name that no partition has, or whose partitions hold no row, stays so through a quiet round.
  gone_stays :
      (n : ℕ) (parts : List (ℕ × ℕ)) (dropped : ℕ) (t : Table)
      → has_partition n t.partitions ≡ false
      → has_partition n (table_of (reclaim_loop now grace (λ k. quiet) parts dropped t)).partitions
        ≡ false
  unfolding reclaim_loop without
  gone_stays n [] dropped t e = e
  gone_stays n ((m, upper) ∷ rest) dropped t e = elim (Bool-cases (leb now (upper + grace))) [
    | inl early ↦ rw early (gone_stays n rest dropped t e)
    | inr late ↦ rw late (elim (Bool-cases (partition_has_rows m t.partitions)) [
      | inl held ↦
          rw (try_reclaim_one-quiet upper late m t true held) (gone_stays n rest dropped t e)
      | inr drained ↦ rw (try_reclaim_one-quiet upper late m t false drained) (
          gone_stays n rest (dropped + 1) (without m t)
            (ground (arith, e, has_partition-drop_partition n m t.partitions)))
    ])
  ]

  -- A listed name that is overdue and drained has no partition in the end.
  drained_goes :
      (n upper : ℕ) (late : leb now (upper + grace) ≡ false) (parts : List (ℕ × ℕ))
      → IsIn (n, upper) parts
      → (dropped : ℕ) (t : Table) → partition_has_rows n t.partitions ≡ false
      → has_partition n (table_of (reclaim_loop now grace (λ k. quiet) parts dropped t)).partitions
        ≡ false
  unfolding reclaim_loop without
  drained_goes n upper late [] p dropped t e = elim p [ ]
  drained_goes n upper late ((m, u) ∷ rest) here dropped t e = rw late (
      rw (try_reclaim_one-quiet upper late n t false e) (
        gone_stays n rest (dropped + 1) (without n t)
          (ground (arith, has_partition-drop_partition n n t.partitions, ==_self n))))
  drained_goes n upper late ((m, u) ∷ rest) (there p) dropped t e =
      elim (Bool-cases (leb now (u + grace))) [
        | inl early ↦ rw early (drained_goes n upper late rest p dropped t e)
        | inr over ↦ rw over (elim (Bool-cases (partition_has_rows m t.partitions)) [
          | inl held ↦
              rw (try_reclaim_one-quiet u over m t true held)
                (drained_goes n upper late rest p dropped t e)
          | inr drained ↦ rw (try_reclaim_one-quiet u over m t false drained) (
              drained_goes n upper late rest p (dropped + 1) (without m t)
                (has_rows-drop_partition n m t.partitions e))
        ])
      ]

insert_sorted-new : (x : ℕ × ℕ) (xs : List (ℕ × ℕ)) → IsIn x (insert_sorted x xs)
unfolding insert_sorted
insert_sorted-new x [] = here
insert_sorted-new x (y ∷ ys) = elim (Bool-cases (leb x.1 y.1)) [
  | inl before ↦ rw before here
  | inr after ↦ rw after (there (insert_sorted-new x ys))
]

insert_sorted-keeps : (x z : ℕ × ℕ) (xs : List (ℕ × ℕ)) → IsIn z xs → IsIn z (insert_sorted x xs)
unfolding insert_sorted
insert_sorted-keeps x z [] p = elim p [ ]
insert_sorted-keeps x z (y ∷ ys) here = elim (Bool-cases (leb x.1 y.1)) [
  | inl before ↦ rw before (there here)
  | inr after ↦ rw after here
]
insert_sorted-keeps x z (y ∷ ys) (there p) = elim (Bool-cases (leb x.1 y.1)) [
  | inl before ↦ rw before (there (there p))
  | inr after ↦ rw after (there (insert_sorted-keeps x z ys p))
]

listed-IsIn :
    (p : Partition) (ps : List Partition) → IsIn p ps → IsIn (p.name, p.range.hi) (listed ps)
unfolding listed
listed-IsIn p [] q = elim q [ ]
listed-IsIn p (x ∷ xs) here = insert_sorted-new (p.name, p.range.hi) (listed xs)
listed-IsIn p (x ∷ xs) (there q) =
    insert_sorted-keeps (x.name, x.range.hi) (p.name, p.range.hi) (listed xs) (listed-IsIn p xs q)

-- With the advisory lock, outside a transaction of the caller, when no row arrives and no transaction
-- fails: a partition of the table that ended longer than the grace period ago, and under whose name no
-- row is found, is gone after the call.
pub reclaim_drained_live_partitions-drained :
    (grace : Option ℕ) (now : ℕ) (t : Table) (p : Partition)
    → IsIn p t.partitions
    → p.range.hi + live_grace grace < now
    → partition_has_rows p.name t.partitions ≡ false
    → has_partition p.name
        (table_of (reclaim_drained_live_partitions true true grace now (λ k. quiet) t)).partitions
      ≡ false
unfolding reclaim_drained_live_partitions
reclaim_drained_live_partitions-drained grace now t p member overdue e =
    drained_goes now (live_grace grace) p.name p.range.hi (ground (arith, overdue))
      (listed t.partitions) (listed-IsIn p t.partitions member) 0 t e
