-- ===== src/Partitions/Kept.antt =====
-- The rows of the live table under reclaim_drained_live_partitions of src/sqlery/core/partitioning.py.
use sqlery.Prelude.{
  ℕ, ◌+◌, ◌≡◌, Bool, true, false, ◌&&◌, Option, none, some, List, [], ◌∷◌, leb, refl, Bool-cases,
  inl, inr,
}
use sqlery.Partitions.Reclaim.{
  settle, Table, Decision, drop, check_rows, take_lock, skip_default, skip_grace, skip_has_rows,
  skip_locked, decide_partition_reclaim, insert_all, partition_has_rows, Trouble, no_trouble,
  canceled, failed, broken, Session, Outcome, decided, logged, raised, under_lock, after_scan,
  scan_then_lock, after_first, try_reclaim_one, Reclaimed, reclaimed, raised_with, next_of,
  reclaim_loop, live_grace, listed, reclaim_drained_live_partitions,
}
use sqlery.Partitions.Rows.{IsWhole, insert_all-IsWhole, drop_partition-IsWhole}

-- The answer `drop` is only given for a partition in which no row was found.
decide-drop :
    (upper now grace : ℕ) (has_rows : Bool) (lock_ok : Option Bool)
    → decide_partition_reclaim (some upper) now grace (some has_rows) false lock_ok ≡ drop
    → has_rows ≡ false
unfolding decide_partition_reclaim
decide-drop upper now grace false lock_ok e = refl
decide-drop upper now grace true lock_ok e = elim (Bool-cases (leb now (upper + grace))) [
  | inl y ↦ let bad : skip_grace ≡ drop = rw y at e in cc
  | inr late ↦ let bad : skip_has_rows ≡ drop = rw late at e in cc
]

module _ (now grace n upper : ℕ) where
  settle-IsWhole :
      (t : Table) (d : Decision)
      → (d ≡ drop → partition_has_rows n t.partitions ≡ false)
      → IsWhole t
      → IsWhole (settle now grace n upper t d).0
  settle-IsWhole t drop drained w = drop_partition-IsWhole n t (drained refl) w
  settle-IsWhole t check_rows drained w = w
  settle-IsWhole t take_lock drained w = w
  settle-IsWhole t skip_default drained w = w
  settle-IsWhole t skip_grace drained w = w
  settle-IsWhole t skip_has_rows drained w = w
  settle-IsWhole t skip_locked drained w = w

  under_lock-IsWhole :
      (trouble : Trouble) (in_snapshot : Bool) (t : Table)
      → IsWhole t
      → IsWhole (under_lock now grace n upper trouble in_snapshot t).0
  under_lock-IsWhole canceled in_snapshot t w = w
  under_lock-IsWhole failed in_snapshot t w = w
  under_lock-IsWhole broken in_snapshot t w = w
  under_lock-IsWhole no_trouble true t w = w
  under_lock-IsWhole no_trouble false t w =
      settle-IsWhole t
        (decide_partition_reclaim (some upper) now grace (some (partition_has_rows n t.partitions))
          false (some true))
        (decide-drop upper now grace (partition_has_rows n t.partitions) (some true)) w

  after_scan-IsWhole :
      (session : Session) (t : Table) (d : Decision)
      → IsWhole t
      → IsWhole (after_scan now grace n upper session t d).0
  after_scan-IsWhole session t take_lock w =
      under_lock-IsWhole session.lock session.in_snapshot (insert_all session.before_lock t)
        (insert_all-IsWhole session.before_lock t w)
  after_scan-IsWhole session t drop w = insert_all-IsWhole session.before_lock t w
  after_scan-IsWhole session t check_rows w = insert_all-IsWhole session.before_lock t w
  after_scan-IsWhole session t skip_default w = insert_all-IsWhole session.before_lock t w
  after_scan-IsWhole session t skip_grace w = insert_all-IsWhole session.before_lock t w
  after_scan-IsWhole session t skip_has_rows w = insert_all-IsWhole session.before_lock t w
  after_scan-IsWhole session t skip_locked w = insert_all-IsWhole session.before_lock t w

  scan_then_lock-IsWhole :
      (trouble : Trouble) (session : Session) (t : Table)
      → IsWhole t
      → IsWhole (scan_then_lock now grace n upper trouble session t).0
  scan_then_lock-IsWhole canceled session t w = insert_all-IsWhole session.before_lock t w
  scan_then_lock-IsWhole failed session t w = insert_all-IsWhole session.before_lock t w
  scan_then_lock-IsWhole broken session t w = insert_all-IsWhole session.before_lock t w
  scan_then_lock-IsWhole no_trouble session t w =
      after_scan-IsWhole session t
        (decide_partition_reclaim (some upper) now grace (some (partition_has_rows n t.partitions))
          false none)
        w

  after_first-IsWhole :
      (session : Session) (t : Table) (d : Decision)
      → IsWhole t
      → IsWhole (after_first now grace n upper session t d).0
  after_first-IsWhole session t check_rows w = scan_then_lock-IsWhole session.scan session t w
  after_first-IsWhole session t drop w = insert_all-IsWhole session.before_lock t w
  after_first-IsWhole session t take_lock w = insert_all-IsWhole session.before_lock t w
  after_first-IsWhole session t skip_default w = insert_all-IsWhole session.before_lock t w
  after_first-IsWhole session t skip_grace w = insert_all-IsWhole session.before_lock t w
  after_first-IsWhole session t skip_has_rows w = insert_all-IsWhole session.before_lock t w
  after_first-IsWhole session t skip_locked w = insert_all-IsWhole session.before_lock t w

  try_reclaim_one-IsWhole :
      (session : Session) (t : Table)
      → IsWhole t
      → IsWhole (try_reclaim_one now grace n upper session t).0
  unfolding try_reclaim_one
  try_reclaim_one-IsWhole session t w =
      after_first-IsWhole session (insert_all session.before_scan t)
        (decide_partition_reclaim (some upper) now grace none false none)
        (insert_all-IsWhole session.before_scan t w)

abbrev pub table_of : Reclaimed → Table
table_of (reclaimed t dropped) = t
table_of (raised_with t) = t

next_of-IsWhole :
    (out : Table × Outcome) (dropped : ℕ) (rest : ℕ → Table → Reclaimed)
    → IsWhole out.0
    → ((d : ℕ) (t : Table) → IsWhole t → IsWhole (table_of (rest d t)))
    → IsWhole (table_of (next_of out dropped rest))
next_of-IsWhole (t, decided drop) dropped rest w goes = goes (dropped + 1) t w
next_of-IsWhole (t, decided check_rows) dropped rest w goes = goes dropped t w
next_of-IsWhole (t, decided take_lock) dropped rest w goes = goes dropped t w
next_of-IsWhole (t, decided skip_default) dropped rest w goes = goes dropped t w
next_of-IsWhole (t, decided skip_grace) dropped rest w goes = goes dropped t w
next_of-IsWhole (t, decided skip_has_rows) dropped rest w goes = goes dropped t w
next_of-IsWhole (t, decided skip_locked) dropped rest w goes = goes dropped t w
next_of-IsWhole (t, logged) dropped rest w goes = goes dropped t w
next_of-IsWhole (t, raised) dropped rest w goes = w

reclaim_loop-IsWhole :
    (now grace : ℕ) (session : ℕ → Session) (parts : List (ℕ × ℕ)) (dropped : ℕ) (t : Table)
    → IsWhole t
    → IsWhole (table_of (reclaim_loop now grace session parts dropped t))
unfolding reclaim_loop
reclaim_loop-IsWhole now grace session [] dropped t w = w
reclaim_loop-IsWhole now grace session ((n, upper) ∷ rest) dropped t w =
    elim (Bool-cases (leb now (upper + grace))) [
      | inl early ↦ rw early (reclaim_loop-IsWhole now grace session rest dropped t w)
      | inr late ↦ rw late (
          next_of-IsWhole (try_reclaim_one now grace n upper (session n) t) dropped
            (λ d t'. reclaim_loop now grace session rest d t')
            (try_reclaim_one-IsWhole now grace n upper (session n) t w)
            (λ d t' w'. reclaim_loop-IsWhole now grace session rest d t' w'))
    ]

-- On a table that holds every row that was inserted, a call leaves one that does, whatever rows other
-- sessions insert before its scans and locks and whatever error ends a transaction or the call: a
-- partition that is dropped takes no row with it.
pub reclaim_drained_live_partitions-IsWhole :
    (lock_acquired owns : Bool) (grace : Option ℕ) (now : ℕ) (session : ℕ → Session) (t : Table)
    → IsWhole t
    → IsWhole (table_of (reclaim_drained_live_partitions lock_acquired owns grace now session t))
unfolding reclaim_drained_live_partitions
reclaim_drained_live_partitions-IsWhole lock_acquired owns grace now session t w =
    elim (Bool-cases (lock_acquired && owns)) [
      | inl y ↦
          rw y (reclaim_loop-IsWhole now (live_grace grace) session (listed t.partitions) 0 t w)
      | inr n ↦ rw n w
    ]
