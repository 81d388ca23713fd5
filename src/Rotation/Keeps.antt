-- ===== src/Rotation/Keeps.antt =====
-- No operation of the rotator loses or invents an entry of the ready queue.
use sqlery.Prelude.{
  ==_iff, subst, ℕ, zero, suc, ◌%◌, ◌<◌, ◌≡◌, ◌≢◌, refl, ap, Bool, true, ◌||◌, List, [], ◌∷◌, ◌++◌,
  arith, ◌==◌, mem, mem-append, Bool-cases, inl, inr,
}
use sqlery.Rotation.{at_slot}
use sqlery.Rotation.Store.{
  Entry, ids, ReadyDb, Locks, pick, insert_new, move_rows, drain, reclaim, truncate, switch,
}

-- Whether a job has an entry, in any slot.
abbrev pub has_entry : ℕ → ReadyDb → Bool
has_entry j db =
    mem j (ids db.rows.first) || mem j (ids db.rows.second) || mem j (ids db.rows.third)

pub pick-mem :
    (held : ℕ → Bool) (n j : ℕ) (es : List Entry)
    → mem j (ids (pick held n es).0) || mem j (ids (pick held n es).1) ≡ mem j (ids es)
unfolding pick
pick-mem held n j [] = refl
pick-mem held zero j (e ∷ es) = refl
pick-mem held (suc n) j (e ∷ es) = ground (arith, pick-mem held (suc n) j es, pick-mem held n j es)

ids-append : (xs ys : List Entry) → ids (xs ++ ys) ≡ ids xs ++ ids ys
ids-append [] ys = refl
ids-append (x ∷ xs) ys = ap (λ l. x.job_id ∷ l) (ids-append xs ys)

mem-snoc :
    (j : ℕ) (xs : List Entry) (e : Entry)
    → mem j (ids (xs ++ e ∷ [])) ≡ mem j (ids xs) || (e.job_id == j)
mem-snoc j xs e = rw (ids-append, mem-append) (ground arith)

mem_self : (j k : ℕ) (xs : List ℕ) → mem k xs ≡ true → (k == j) ≡ true → mem j xs ≡ true
mem_self j k xs h e = subst (λ z. mem z xs ≡ true) ((==_iff k j).0 e) h

pub insert_new-mem :
    (j : ℕ) (rows es : List Entry)
    → mem j (ids (insert_new rows es)) ≡ mem j (ids rows) || mem j (ids es)
unfolding insert_new
insert_new-mem j rows [] = ground arith
insert_new-mem j rows (e ∷ es) = elim (Bool-cases (mem e.job_id (ids rows))) [
  | inl old ↦ rw old (ground (arith, insert_new-mem j rows es, mem_self j e.job_id (ids rows) old))
  | inr new ↦ rw new (ground (arith, insert_new-mem j (rows ++ e ∷ []) es, mem-snoc j rows e))
]

-- Moving rows between two different slots keeps every job's entry.
move_rows-has_entry :
    (j slot cur : ℕ) (moved kept : List Entry) (db : ReadyDb)
    → slot < 3
    → cur < 3
    → slot ≢ cur
    → mem j (ids moved) || mem j (ids kept) ≡ mem j (ids (at_slot db.rows slot))
    → has_entry j (move_rows db slot cur moved kept) ≡ has_entry j db
unfolding move_rows
move_rows-has_entry j slot cur moved kept db s c ne parts =
    ground (arith, insert_new-mem j (at_slot db.rows cur) moved)

mod_lt : (g : ℕ) → g % 3 < 3
mod_lt g = omega arith

-- A drain keeps the entry of every job and adds none.
pub drain-has_entry :
    (locks : Locks) (slot batch j : ℕ) (db : ReadyDb)
    → slot < 3
    → has_entry j (drain locks slot batch db).1 ≡ has_entry j db
unfolding drain
drain-has_entry locks slot batch j db h = ground (
  arith,
  mod_lt db.generation,
  pick-mem locks.held batch j (at_slot db.rows slot),
  move_rows-has_entry j slot (db.generation % 3) (pick locks.held batch (at_slot db.rows slot)).0
      (pick locks.held batch (at_slot db.rows slot)).1 db,
)

-- The partition that `reclaim` truncates is empty by then.
truncate-has_entry :
    (j slot cur : ℕ) (moved : List Entry) (db : ReadyDb)
    → slot < 3
    → cur < 3
    → slot ≢ cur
    → has_entry j (truncate (move_rows db slot cur moved []) slot)
      ≡ has_entry j (move_rows db slot cur moved [])
unfolding move_rows
truncate-has_entry j slot cur moved db s c ne = ground arith

pub reclaim-has_entry :
    (locks : Locks) (slot batch j : ℕ) (db : ReadyDb)
    → slot < 3
    → has_entry j (reclaim locks slot batch db).1 ≡ has_entry j db
unfolding reclaim
reclaim-has_entry locks slot batch j db h =
    let moved = at_slot db.rows slot in
    let cur = db.generation % 3 in
    ground (
      arith,
      mod_lt db.generation,
      truncate-has_entry j slot cur moved db,
      move_rows-has_entry j slot cur moved [] db,
    )

pub switch-has_entry :
    (locks : Locks) (interval j : ℕ) (db : ReadyDb)
    → has_entry j (switch locks interval db).1 ≡ has_entry j db
unfolding switch
switch-has_entry locks interval j db = ground arith
