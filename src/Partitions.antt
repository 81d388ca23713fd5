-- ===== src/Partitions.antt =====
-- The range partitions of a table: src/sqlery/core/partitioning.py, from the list of the partitions'
-- ranges on. Times are in whole seconds. This file has ensure_live_partitions; Partitions/Reclaim has
-- the dropping of drained partitions of the live table.
--
-- Parameters: the intervals as parse_interval reads them, the start of a day in the time zone of the
-- session, and the answers of the database: the advisory lock, a name that is taken, and rows of a
-- range in the DEFAULT partition.
mod Covers
mod Steps
mod Rows
pub mod Drained
pub mod Ahead
pub mod Reclaim
pub mod Kept
mod Tests
use sqlery.Prelude.{
  ℕ, zero, suc, ◌+◌, ◌*◌, ◌/◌, ◌%◌, ◌≤◌, ◌<◌, Bool, true, false, ◌&&◌, ◌||◌, not, Option, none,
  some, List, [], ◌∷◌, ◌++◌, ltb, leb, ◌==◌, if◌then◌else◌, max,
}

-- A range from `lo`, up to `hi` without it.
pub record Range : Type 0 where
  pub lo : ℕ
  pub hi : ℕ

unfoldable pub contains : ℕ → Range → Bool
contains t r = leb r.lo t && ltb t r.hi

-- The function keeps its list sorted; ranges that do not overlap have one that contains an instant at
-- most, so no order is kept here.
-- `next((hi for lo, hi in existing if lo <= cursor_ts < hi), None)`
unfoldable pub covering : ℕ → List Range → Option Range
covering t [] = none
covering t (r ∷ rs) = let rest = covering t rs in if contains t r then some r else rest

-- `min` of `hi` and the starts of the ranges after `t`.
unfoldable pub clip : ℕ → (hi : ℕ) → List Range → ℕ
clip t hi [] = hi
clip t hi (r ∷ rs) = let rest = clip t hi rs in if ltb t r.lo && ltb r.lo rest then r.lo else rest

unfoldable pub overlaps : Range → List Range → Bool
overlaps r [] = false
overlaps r (x ∷ xs) = (ltb x.lo r.hi && ltb r.lo x.hi) || overlaps r xs

-- What the database says to CREATE TABLE IF NOT EXISTS ... PARTITION OF, beside an overlap.
pub data Answer : Type 0 where
  made name_taken attach_conflict : Answer

-- The partitions of the table, and the number that the function counts; `raised` is the error of an
-- overlap, which is not handled.
pub data Ensured : Type 0 where
  done : List Range → (created : ℕ) → Ensured
  raised : List Range → Ensured

-- The partitions after the statement on a range that overlaps none of them.
abbrev pub attached : Answer → Range → List Range → List Range
attached made r table = r ∷ table
attached name_taken r table = table
attached attach_conflict r table = table

module _ (answer : Range → Answer) (width until : ℕ) where
  unfoldable pub counted : Range → ℕ
  counted r = elim (answer r) [ made ↦ 1 | name_taken ↦ 1 | attach_conflict ↦ 0 ]

  unfoldable pub candidate : (cursor : ℕ) → List Range → Range
  candidate cursor existing = record { lo = cursor; hi = clip cursor (cursor + width) existing }

  -- The loop: `table` are the partitions, `existing` the list that the function keeps.
  unfoldable pub ensure_loop :
      (iterations cursor created : ℕ) → (table existing : List Range) → Ensured
  ensure_loop zero cursor created table existing = done table created
  ensure_loop (suc iterations) cursor created table existing =
      let r = candidate cursor existing in
      if leb until cursor then done table created else elim (covering cursor existing) [
        | some c ↦ ensure_loop iterations c.hi created table existing
        | none ↦ elim (overlaps r table) [
          | true ↦ raised table
          | false ↦
              ensure_loop iterations r.hi (created + counted r) (attached (answer r) r table)
                (r ∷ existing)
        ]
      ]

-- The width: one of less than a minute, or one that is no interval, is replaced by an hour.
unfoldable pub live_width : Option ℕ → ℕ
live_width none = 3600
live_width (some width) = if ltb width 60 then 3600 else width

-- The first instant: the day that holds now for whole days, else the multiple of the width.
unfoldable pub bucket : (day_start : ℕ → ℕ) → (width now : ℕ) → ℕ
bucket day_start width now =
    if leb 86400 width && (width % 86400 == 0) then day_start now else (now / width) * width

-- How far the partitions reach ahead.
unfoldable pub ahead_of : (width premake : ℕ) → (lookahead : Option ℕ) → ℕ
ahead_of width premake none = max (width * max premake 1) 86400
ahead_of width premake (some seconds) = max (width * max premake 1) seconds

-- `ensure_live_partitions`
unfoldable pub ensure_live_partitions :
    (answer : Range → Answer)
    → (day_start : ℕ → ℕ) → (lock_acquired : Bool) → (interval : Option ℕ) → (premake : ℕ)
    → (lookahead : Option ℕ) → (now : ℕ) → List Range
    → Ensured
unfolding live_width bucket ahead_of ensure_loop
ensure_live_partitions answer day_start false interval premake lookahead now table = done table 0
ensure_live_partitions answer day_start true interval premake lookahead now table =
    ensure_loop answer (live_width interval)
      (now + ahead_of (live_width interval) premake lookahead) 10000
      (bucket day_start (live_width interval) now) 0 table table
