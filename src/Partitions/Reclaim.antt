-- ===== src/Partitions/Reclaim.antt =====
-- reclaim_drained_live_partitions of src/sqlery/core/partitioning.py, with decide_partition_reclaim
-- and _try_reclaim_one, on a table that other sessions insert into meanwhile.
--
-- A row is the time that it is routed by. The database is a parameter: what it answers to the two
-- transactions of a partition, and the rows that arrive before each; none arrives while the lock of
-- the partition is held.
use sqlery.Prelude.{
  ℕ, ◌+◌, Bool, true, false, ◌&&◌, ◌||◌, not, Option, none, some, List, [], ◌∷◌, leb, ◌==◌,
  if◌then◌else◌, max, is_empty,
}
use sqlery.Partitions.{Range, contains}

-- A partition with a range; `upper` is the bound that the catalog's text was read as.
pub record Partition : Type 0 where
  pub name : ℕ
  pub range : Range
  pub rows : List ℕ

pub record Table : Type 0 where
  pub partitions : List Partition
  pub default_rows : List ℕ
  -- The rows that the statements of all sessions have put there: a record of the model's own.
  pub inserted : List ℕ

pub data Decision : Type 0 where
  drop check_rows take_lock skip_default skip_grace skip_has_rows skip_locked : Decision

-- `decide_partition_reclaim`; `upper >= now - grace` on whole seconds.
unfoldable pub decide_partition_reclaim :
    (upper : Option ℕ)
    → (now grace : ℕ) → (has_rows : Option Bool) → (is_default : Bool) → (lock_ok : Option Bool)
    → Decision
decide_partition_reclaim none now grace has_rows is_default lock_ok = skip_default
decide_partition_reclaim (some upper) now grace has_rows is_default lock_ok =
    if is_default
    then skip_default
    else if leb now (upper + grace)
    then skip_grace
    else elim has_rows [
      | none ↦ check_rows
      | some true ↦ skip_has_rows
      | some false ↦ elim lock_ok [ none ↦ take_lock | some false ↦ skip_locked | some true ↦ drop ]
    ]

-- INSERT: the row goes to the partition of its range, else to the DEFAULT partition.
unfoldable pub insert_into : ℕ → List Partition → Option (List Partition)
insert_into row [] = none
insert_into row (p ∷ ps) =
    let rest = insert_into row ps in
    if contains row p.range
    then some (record p { rows = row ∷ p.rows } ∷ ps)
    else elim rest [ none ↦ none | some ps' ↦ some (p ∷ ps') ]

abbrev pub routed : ℕ → Table → Option (List Partition) → Table
routed row t none = record t { default_rows = row ∷ t.default_rows; inserted = row ∷ t.inserted }
routed row t (some ps) = record t { partitions = ps; inserted = row ∷ t.inserted }

unfoldable pub insert_all : List ℕ → Table → Table
unfolding insert_into
insert_all [] t = t
insert_all (row ∷ rows) t = insert_all rows (routed row t (insert_into row t.partitions))

-- `_partition_has_rows`
unfoldable pub partition_has_rows : ℕ → List Partition → Bool
partition_has_rows n [] = false
partition_has_rows n (p ∷ ps) = (p.name == n && not (is_empty p.rows)) || partition_has_rows n ps

-- DETACH PARTITION and DROP TABLE.
unfoldable pub drop_partition : ℕ → List Partition → List Partition
drop_partition n [] = []
drop_partition n (p ∷ ps) = let rest = drop_partition n ps in if p.name == n then rest else p ∷ rest

-- What stops a transaction, which is rolled back then: an error that is handled there (QueryCanceled in
-- the scan; LockNotAvailable, DeadlockDetected and QueryCanceled under the lock), another error of the
-- database, a connection that is broken.
pub data Trouble : Type 0 where
  no_trouble canceled failed broken : Trouble

-- The database, for one partition: the rows that arrive before the scan and before the lock, what
-- stops the two transactions, and whether the second runs in a snapshot of the caller.
pub record Session : Type 0 where
  pub before_scan : List ℕ
  pub before_lock : List ℕ
  pub scan : Trouble
  pub lock : Trouble
  pub in_snapshot : Bool

pub data Outcome : Type 0 where
  decided : Decision → Outcome
  -- An error that the caller logs, and one that leaves it.
  logged raised : Outcome

module _ (now grace : ℕ) (n upper : ℕ) where
  -- DETACH and DROP for the answer `drop`, and nothing for every other.
  abbrev pub settle : Table → Decision → Table × Outcome
  settle t drop = (record t { partitions = drop_partition n t.partitions }, decided drop)
  settle t d = (t, decided d)

  -- The second look, under the lock.
  abbrev pub second_look : (in_snapshot : Bool) → Table → Table × Outcome
  second_look in_snapshot t =
      if in_snapshot
      then (t, decided skip_locked)
      else settle t (
          decide_partition_reclaim (some upper) now grace (some (partition_has_rows n t.partitions))
            false (some true))

  -- The second transaction, on the tables at its lock.
  abbrev pub under_lock : Trouble → (in_snapshot : Bool) → Table → Table × Outcome
  under_lock canceled in_snapshot t = (t, decided skip_locked)
  under_lock failed in_snapshot t = (t, logged)
  under_lock broken in_snapshot t = (t, raised)
  under_lock no_trouble in_snapshot t = second_look in_snapshot t

  -- After the first look: a partition without rows is locked, and looked at again.
  abbrev pub after_scan : Session → Table → Decision → Table × Outcome
  after_scan session t take_lock =
      under_lock session.lock session.in_snapshot (insert_all session.before_lock t)
  after_scan session t d = (insert_all session.before_lock t, decided d)

  abbrev pub scan_then_lock : Trouble → Session → Table → Table × Outcome
  scan_then_lock canceled session t = (insert_all session.before_lock t, decided skip_has_rows)
  scan_then_lock failed session t = (insert_all session.before_lock t, logged)
  scan_then_lock broken session t = (insert_all session.before_lock t, raised)
  scan_then_lock no_trouble session t = after_scan session t (
      decide_partition_reclaim (some upper) now grace (some (partition_has_rows n t.partitions))
        false none)

  abbrev pub after_first : Session → Table → Decision → Table × Outcome
  after_first session t check_rows = scan_then_lock session.scan session t
  after_first session t d = (insert_all session.before_lock t, decided d)

  -- `_try_reclaim_one`
  unfoldable pub try_reclaim_one : Session → Table → Table × Outcome
  unfolding decide_partition_reclaim
  try_reclaim_one session t =
      after_first session (insert_all session.before_scan t)
        (decide_partition_reclaim (some upper) now grace none false none)

-- The tables, the partitions dropped so far, and whether the call ended in an error.
pub data Reclaimed : Type 0 where
  reclaimed : Table → (dropped : ℕ) → Reclaimed
  raised_with : Table → Reclaimed

abbrev pub next_of : Table × Outcome → (dropped : ℕ) → (ℕ → Table → Reclaimed) → Reclaimed
next_of (t, decided drop) dropped rest = rest (dropped + 1) t
next_of (t, decided _) dropped rest = rest dropped t
next_of (t, logged) dropped rest = rest dropped t
next_of (t, raised) dropped rest = raised_with t

module _ (now grace : ℕ) (session : ℕ → Session) where
  -- The loop over the listed partitions, oldest first.
  unfoldable pub reclaim_loop : List (ℕ × ℕ) → (dropped : ℕ) → Table → Reclaimed
  reclaim_loop [] dropped t = reclaimed t dropped
  reclaim_loop ((n, upper) ∷ rest) dropped t =
      if leb now (upper + grace)
      then reclaim_loop rest dropped t
      else next_of (try_reclaim_one now grace n upper (session n) t) dropped
          (λ d t'. reclaim_loop rest d t')

-- The grace period: an hour for a setting that is no interval, and a minute at least.
unfoldable pub live_grace : Option ℕ → ℕ
live_grace none = 3600
live_grace (some grace) = max grace 60

-- `sorted(partitions, key=lambda item: item[1])` of the names and upper bounds.
unfoldable pub insert_sorted : ℕ × ℕ → List (ℕ × ℕ) → List (ℕ × ℕ)
insert_sorted x [] = x ∷ []
insert_sorted x (y ∷ ys) =
    let rest = insert_sorted x ys in if leb x.1 y.1 then x ∷ y ∷ ys else y ∷ rest

unfoldable pub listed : List Partition → List (ℕ × ℕ)
unfolding insert_sorted
listed [] = []
listed (p ∷ ps) = insert_sorted (p.name, p.range.hi) (listed ps)

-- `reclaim_drained_live_partitions`, with the advisory lock or without it; `owns` is false inside a
-- transaction of the caller.
unfoldable pub reclaim_drained_live_partitions :
    (lock_acquired owns : Bool) → (grace : Option ℕ) → (now : ℕ) → (ℕ → Session) → Table → Reclaimed
unfolding reclaim_loop live_grace listed
reclaim_drained_live_partitions lock_acquired owns grace now session t =
    if lock_acquired && owns
    then reclaim_loop now (live_grace grace) session (listed t.partitions) 0 t
    else reclaimed t 0
