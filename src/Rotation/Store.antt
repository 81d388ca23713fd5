-- ===== src/Rotation/Store.antt =====
-- core/rotation.py, SqlRotationIO: each operation is one transaction on the ready table. The SQL
-- statements are read as operations on the three partitions, the sequences and the clock.
use sqlery.Prelude.{
  ℕ, zero, suc, ◌+◌, ◌*◌, max, Bool, true, false, ◌||◌, Option, none, some, List, [], ◌∷◌, ◌++◌,
  map, String, ltb, ◌==◌, if◌then◌else◌, length, is_empty, mem,
}
use sqlery.Rotation.{
  slot_for_generation, RotationState, Three, at_slot, Action, decide_rotation_step,
}

pub record Entry : Type 0 where
  pub job_id : ℕ
  pub queue_name : String
  pub priority : ℕ
  pub created_at : ℕ
  pub scheduled_at : Option ℕ

abbrev pub ids : List Entry → List ℕ
ids = map (λ e. e.job_id)

-- The generation, switch and reclaim sequences, the partitions, whether each takes up storage
-- (`pg_relation_size > 0`), and the clock.
pub record ReadyDb : Type 0 where
  pub generation : ℕ
  pub rows : Three (List Entry)
  pub sized : Three Bool
  pub switch_ts : ℕ
  pub reclaim_ts : ℕ
  pub clock : ℕ

-- What other sessions hold while a transaction runs: row locks of claimers, the generation key
-- (shared, by writers), and the table lock of a partition.
pub record Locks : Type 0 where
  pub held : ℕ → Bool
  pub key_busy : Bool
  pub table_busy : Bool

abbrev pub set_slot {ℓ} : {A : Type ℓ} → Three A → ℕ → A → Three A
set_slot t i a =
    if i == 0
    then record t { first = a }
    else if i == 1
    then record t { second = a }
    else record t { third = a }

abbrev pub timestamp : ℕ → Option ℕ
timestamp value = if ltb 1 value then some value else none

abbrev filled : List Entry → Bool
filled [] = false
filled (e ∷ es) = true

unfoldable pub read_state : ReadyDb → (interval : ℕ) → RotationState
read_state db interval = record {
  generation = db.generation;
  nonempty = record {
    first = filled db.rows.first;
    second = filled db.rows.second;
    third = filled db.rows.third;
  };
  dirty = record {
    first = filled db.rows.first || db.sized.first;
    second = filled db.rows.second || db.sized.second;
    third = filled db.rows.third || db.sized.third;
  };
  now = db.clock;
  last_switch = timestamp db.switch_ts;
  interval = interval;
  switch_lock = none;
  reclaim_lock = none;
}

-- `LIMIT :n FOR UPDATE SKIP LOCKED`: the first `n` rows that no claimer holds, and the others.
unfoldable pub pick : (held : ℕ → Bool) → ℕ → List Entry → List Entry × List Entry
pick held n [] = ([], [])
pick held zero (e ∷ es) = ([], e ∷ es)
pick held (suc n) (e ∷ es) =
    let skipped = pick held (suc n) es in
    let taken = pick held n es in
    if held e.job_id then (skipped.0, e ∷ skipped.1) else (e ∷ taken.0, taken.1)

-- `INSERT … ON CONFLICT DO NOTHING`, on the key (slot, job_id).
unfoldable pub insert_new : List Entry → List Entry → List Entry
insert_new rows [] = rows
insert_new rows (e ∷ es) = insert_new (if mem e.job_id (ids rows) then rows else rows ++ e ∷ []) es

-- `_move_sql`: `moved` leaves `slot`, `kept` stays, and `moved` enters the current slot.
unfoldable pub move_rows : ReadyDb → (slot cur : ℕ) (moved kept : List Entry) → ReadyDb
move_rows db slot cur moved kept =
    let rows = set_slot db.rows slot kept in
    record db {
      rows = set_slot rows cur (insert_new (at_slot rows cur) moved);
      sized = if is_empty moved then db.sized else set_slot db.sized cur true;
    }

unfoldable pub drain : Locks → (slot batch : ℕ) → ReadyDb → ℕ × ReadyDb
unfolding slot_for_generation
drain locks slot batch db =
    let cur = slot_for_generation db.generation in
    let (moved, kept) = pick locks.held batch (at_slot db.rows slot) in
    if slot == cur then (0, db) else (length moved, move_rows db slot cur moved kept)

-- `TRUNCATE`, and the reclaim time.
abbrev pub truncate : ReadyDb → ℕ → ReadyDb
truncate db slot = record db {
  rows = set_slot db.rows slot [];
  sized = set_slot db.sized slot false;
  reclaim_ts = db.clock;
}

-- With far more rows than a straggler the transaction commits the move and stops there.
unfoldable pub reclaim : Locks → (slot batch : ℕ) → ReadyDb → Bool × ReadyDb
unfolding slot_for_generation
reclaim locks slot batch db =
    let cur = slot_for_generation db.generation in
    let moved = at_slot db.rows slot in
    let after = move_rows db slot cur moved [] in
    if slot == cur
    then (false, db)
    else if locks.table_busy
    then (false, db)
    else if ltb (max batch 1 * 10) (length moved)
    then (false, after)
    else (true, truncate after slot)

pub data Outcome : Type 0 where
  switched busy skipped : Outcome

abbrev pub perform_switch : Action → ReadyDb → Outcome × ReadyDb
perform_switch Action.switch db =
    (switched, record db { generation = db.generation + 1; switch_ts = db.clock })
perform_switch _ db = (skipped, db)

unfoldable pub switch : Locks → (interval : ℕ) → ReadyDb → Outcome × ReadyDb
unfolding read_state
switch locks interval db =
    let state = record (read_state db interval) { switch_lock = some true } in
    if locks.key_busy then (busy, db) else perform_switch (decide_rotation_step state) db
