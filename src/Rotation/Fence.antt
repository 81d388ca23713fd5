-- ===== src/Rotation/Fence.antt =====
-- The fence between the writers and the rotator: writers hold the shared key until they commit, and
-- a switch needs the key alone. A writer that found no generation sequence, up to 30 seconds ago, writes
-- without the key.
use sqlery.Prelude.{
  false, sym, subst, ℕ, ◌%◌, ◌≡◌, Bool, true, not, List, [], ◌∷◌, ◌++◌, All, arith, is_empty,
  String,
}
use sqlery.Rotation.{at_slot}
use sqlery.Rotation.Store
use sqlery.Rotation.Store.{Entry, ReadyDb, Locks, set_slot, insert_new}
use sqlery.Rotation.Writer.{SequenceProbe, writer_slot}

-- The database, and the slots that the open fenced writers read.
pub record System : Type 0 where
  pub db : ReadyDb
  pub writers : List ℕ

-- A writer's insert into the slot that it read.
abbrev pub write : ReadyDb → (slot : ℕ) → Entry → ReadyDb
write db slot e = record db {
  rows = set_slot db.rows slot (insert_new (at_slot db.rows slot) (e ∷ []));
  sized = set_slot db.sized slot true;
}

pub data Step (s t : System) : Type 0 where
  -- A transaction opens, reads its slot, and holds the shared key.
  begin :
      (p : SequenceProbe) (now : ℕ) (exists : Bool) (dialect : String)
      → (writer_slot p now exists s.db true dialect).fenced ≡ true
      → t ≡ record s { writers = (writer_slot p now exists s.db true dialect).slot ∷ s.writers }
      → Step s t
  -- A writer whose probe misses the sequence inserts into slot 0, and holds no key.
  insert_unfenced :
      (p : SequenceProbe) (now : ℕ) (exists : Bool) (dialect : String) (e : Entry)
      → (writer_slot p now exists s.db true dialect).fenced ≡ false
      → t ≡ record s { db = write s.db (writer_slot p now exists s.db true dialect).slot e }
      → Step s t
  -- An open writer inserts its row.
  insert :
      (slot : ℕ) (e : Entry) (xs ys : List ℕ)
      → s.writers ≡ xs ++ slot ∷ ys
      → t ≡ record s { db = write s.db slot e }
      → Step s t
  -- A writer commits or rolls back, which frees its share of the key.
  finish :
      (slot : ℕ) (xs ys : List ℕ)
      → s.writers ≡ xs ++ slot ∷ ys
      → t ≡ record s { writers = xs ++ ys }
      → Step s t
  switch :
      (locks : Locks) (interval : ℕ)
      → locks.key_busy ≡ not (is_empty s.writers)
      → t ≡ record s { db = (Store.switch locks interval s.db).1 }
      → Step s t
  drain :
      (locks : Locks) (slot batch : ℕ)
      → t ≡ record s { db = (Store.drain locks slot batch s.db).1 }
      → Step s t
  reclaim :
      (locks : Locks) (slot batch : ℕ)
      → t ≡ record s { db = (Store.reclaim locks slot batch s.db).1 }
      → Step s t

pub data Reach (s : System) : System → Type 0 where
  here : Reach s s
  next : {t u : System} → Reach s t → Step t u → Reach s u

-- Every open fenced writer inserts into the slot of the current generation.
abbrev pub IsFenced : System → Type 0
IsFenced s = All (λ slot. slot ≡ s.db.generation % 3) s.writers

All-split :
    (g slot : ℕ) (xs ys : List ℕ) → All (λ w. w ≡ g) (xs ++ slot ∷ ys) → All (λ w. w ≡ g) (xs ++ ys)
All-split g slot [] ys h = h.1
All-split g slot (x ∷ xs) ys h = (h.0, All-split g slot xs ys h.1)

All-middle : (g slot : ℕ) (xs ys : List ℕ) → All (λ w. w ≡ g) (xs ++ slot ∷ ys) → slot ≡ g
All-middle g slot [] ys h = h.0
All-middle g slot (x ∷ xs) ys h = All-middle g slot xs ys h.1

drain-generation :
    (locks : Locks) (slot batch : ℕ) (db : ReadyDb)
    → (Store.drain locks slot batch db).1.generation ≡ db.generation
unfolding Store.drain Store.move_rows
drain-generation locks slot batch db = ground arith

reclaim-generation :
    (locks : Locks) (slot batch : ℕ) (db : ReadyDb)
    → (Store.reclaim locks slot batch db).1.generation ≡ db.generation
unfolding Store.reclaim Store.move_rows
reclaim-generation locks slot batch db = ground arith

switch_busy :
    (locks : Locks) (interval : ℕ) (db : ReadyDb)
    → locks.key_busy ≡ true
    → (Store.switch locks interval db).1 ≡ db
unfolding Store.switch
switch_busy locks interval db h = ground arith

begin-slot :
    (p : SequenceProbe) (now : ℕ) (exists : Bool) (dialect : String) (db : ReadyDb)
    → (writer_slot p now exists db true dialect).fenced ≡ true
    → (writer_slot p now exists db true dialect).slot ≡ db.generation % 3
unfolding writer_slot
begin-slot p now exists dialect db h = ground arith

abbrev FencedAt : ℕ → List ℕ → Type 0
FencedAt generation writers = All (λ slot. slot ≡ generation % 3) writers

Step-switch-IsFenced :
    (s : System) (writers : List ℕ) (locks : Locks) (interval : ℕ)
    → locks.key_busy ≡ not (is_empty writers)
    → FencedAt s.db.generation writers
    → FencedAt (Store.switch locks interval s.db).1.generation writers
Step-switch-IsFenced s [] locks interval k h = tt
Step-switch-IsFenced s (w ∷ ws) locks interval k h =
    subst (λ (d : ReadyDb). FencedAt d.generation (w ∷ ws))
      (sym (switch_busy locks interval s.db k)) h

Step-IsFenced : {s t : System} → Step s t → IsFenced s → IsFenced t
Step-IsFenced {s} {t} (begin p now exists dialect f e) h =
    subst IsFenced (sym e) (begin-slot p now exists dialect s.db f, h)
Step-IsFenced {s} {t} (insert_unfenced p now exists dialect x f e) h = subst IsFenced (sym e) h
Step-IsFenced {s} {t} (insert slot x xs ys w e) h = subst IsFenced (sym e) h
Step-IsFenced {s} {t} (finish slot xs ys w e) h =
    subst IsFenced (sym e) (All-split _ slot xs ys (subst (FencedAt s.db.generation) w h))
Step-IsFenced {s} {t} (switch locks interval k e) h =
    subst IsFenced (sym e) (Step-switch-IsFenced s s.writers locks interval k h)
Step-IsFenced {s} {t} (drain locks slot batch e) h =
    subst IsFenced (sym e) (rw (drain-generation locks slot batch s.db) h)
Step-IsFenced {s} {t} (reclaim locks slot batch e) h =
    subst IsFenced (sym e) (rw (reclaim-generation locks slot batch s.db) h)

Reach-IsFenced : {s t : System} → IsFenced s → Reach s t → IsFenced t
Reach-IsFenced h here = h
Reach-IsFenced h (next r st) = Step-IsFenced st (Reach-IsFenced h r)

-- From a state with no open fenced writer, in every interleaving of writers and the rotator's
-- transactions, the slot of every writer that is still open, and that read it under the shared key, is
-- the current one. A writer whose probe misses the generation sequence holds no key, and is not meant.
pub insert_hits_current :
    {s t : System} (slot : ℕ) (xs ys : List ℕ)
    → s.writers ≡ []
    → Reach s t
    → t.writers ≡ xs ++ slot ∷ ys
    → slot ≡ t.db.generation % 3
insert_hits_current {s} {t} slot xs ys none_open r w = All-middle _ slot xs ys (
    subst (FencedAt t.db.generation) w
      (Reach-IsFenced (subst (FencedAt s.db.generation) (sym none_open) tt) r))
