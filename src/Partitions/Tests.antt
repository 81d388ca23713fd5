-- ===== src/Partitions/Tests.antt =====
-- Partitions at small tables.
use sqlery.Prelude.{
  here, there, ◌==◌, if◌then◌else◌, ◌+◌, ℕ, ◌*◌, ◌/◌, true, false, none, some, List, [], ◌∷◌, arith,
  refl, ◌≡◌,
}
use sqlery.Partitions.{
  covering, contains, overlaps, candidate, clip, counted, Range, Answer, made, Ensured, done,
  live_width, bucket, ahead_of, ensure_live_partitions,
}
use sqlery.Partitions.Ahead.{ensure_live_partitions-IsEnsured, ahead}
use sqlery.Partitions.Drained.{quiet, has_partition, reclaim_drained_live_partitions-drained}
use sqlery.Partitions.Kept.{table_of, reclaim_drained_live_partitions-IsWhole}
use sqlery.Partitions.Reclaim.{
  live_grace, drop_partition, insert_all, partition_has_rows, Partition, Table, Session, reclaimed,
  no_trouble, reclaim_drained_live_partitions, try_reclaim_one,
}
use sqlery.Partitions.Rows.{IsWhole, count, count_in}
use sqlery.Partitions.Steps.{IsEnsured}

abbrev midnight : ℕ → ℕ
midnight now = (now / 86400) * 86400

abbrev hour : ℕ → Range
hour n = record { lo = 3600 * n; hi = 3600 * (n + 1) }

abbrev always : Range → Answer
always r = made

ensure_live_partitions-IsEnsured_example :
    IsEnsured always
      (ahead (some 3600) none 7 100000)
      (bucket midnight (live_width (some 3600)) 100000)
      (hour 27 ∷ hour 30 ∷ [])
      (ensure_live_partitions always midnight true
        (some 3600)
        7
        none
        100000
        (hour 27 ∷ hour 30 ∷ []))
unfolding bucket live_width ahead_of
ensure_live_partitions-IsEnsured_example =
    ensure_live_partitions-IsEnsured always midnight (some 3600) none 7 100000 25
      (hour 27 ∷ hour 30 ∷ []) (omega arith) (omega arith)

abbrev part : ℕ → List ℕ → Partition
part n rows = record { name = n; range = hour n; rows = rows }

-- Hours 1 and 2 are drained, hour 3 holds a row; a row of hour 2 arrives after the scan of hour 2.
abbrev live : Table
live = record {
  partitions = part 1 [] ∷ part 3 (11000 ∷ []) ∷ part 2 [] ∷ [];
  default_rows = [];
  inserted = 11000 ∷ [];
}

abbrev session : ℕ → Session
session n = record {
  before_scan = [];
  before_lock = if n == 2 then 7300 ∷ [] else [];
  scan = no_trouble;
  lock = no_trouble;
  in_snapshot = false;
}

abbrev after : Table
after = record {
  partitions = part 3 (11000 ∷ []) ∷ part 2 (7300 ∷ []) ∷ [];
  default_rows = [];
  inserted = 7300 ∷ 11000 ∷ [];
}

-- Hour 1 is dropped, hour 2 is not.
reclaim_live :
    reclaim_drained_live_partitions true true (some 3600) 90000 session live ≡ reclaimed after 1
unfolding reclaim_drained_live_partitions try_reclaim_one partition_has_rows insert_all
    drop_partition contains
reclaim_live = refl

live-IsWhole : IsWhole live
unfolding IsWhole count count_in
live-IsWhole = λ x. omega arith

reclaim_drained_live_partitions-IsWhole_example :
    IsWhole (table_of (reclaim_drained_live_partitions true true (some 3600) 90000 session live))
reclaim_drained_live_partitions-IsWhole_example =
    reclaim_drained_live_partitions-IsWhole true true (some 3600) 90000 session live live-IsWhole

-- The hours ahead are made, around those that exist.
abbrev made_hours : Ensured
made_hours =
    ensure_live_partitions always midnight true (some 3600) 1 (some 10000) 100000
      (hour 27 ∷ hour 29 ∷ [])

ensure_hours : made_hours ≡ done (hour 30 ∷ hour 28 ∷ hour 27 ∷ hour 29 ∷ []) 2
unfolding ensure_live_partitions covering contains overlaps candidate clip counted
ensure_hours = refl

abbrev undisturbed : Table
undisturbed =
    table_of (reclaim_drained_live_partitions true true (some 3600) 90000 (λ k. quiet) live)

reclaim_drained_live_partitions-drained_example : has_partition 2 undisturbed.partitions ≡ false
unfolding live_grace partition_has_rows
reclaim_drained_live_partitions-drained_example =
    reclaim_drained_live_partitions-drained (some 3600) 90000 live (part 2 []) (there (there here))
      (omega arith) refl
