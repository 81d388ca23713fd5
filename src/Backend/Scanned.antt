-- ===== src/Backend/Scanned.antt =====
-- The cursor of the scan, and the entries that it has not passed.
use sqlery.Prelude.{
  inr, subst, ◌⊎◌, if◌then◌else◌, inl, ℕ, ◌≤◌, ◌<◌, Bool, true, Option, none, some, List, [], ◌∷◌,
  ◌≡◌, refl, arith, length,
}
use sqlery.Backend.{ReadyEntry, select_where}
use sqlery.Backend.Scan.{Cursor, cursor_of, comes_after, past, next_entry, sooner}

-- The entries that the cursor has not passed.
abbrev pub remaining : Option Cursor → List ReadyEntry → ℕ
remaining after es = length (select_where (λ e. past after (cursor_of e)) es)

-- An entry that a later cursor has not passed, an earlier one has not either.
past-cursor :
    (after : Option Cursor) (a b : Cursor)
    → past after a ≡ true
    → comes_after a b ≡ true
    → past after b ≡ true
past-cursor none a b h k = refl
past-cursor (some c) a b h k = ground arith

remaining-cursor :
    (after : Option Cursor) (a : Cursor) (es : List ReadyEntry)
    → past after a ≡ true
    → remaining (some a) es ≤ remaining after es
remaining-cursor after a [] h = omega arith
remaining-cursor after a (e ∷ es) h =
    ground (arith, remaining-cursor after a es h, past-cursor after a (cursor_of e) h)

-- What the next entry is.
pub data IsNext (eligible : ReadyEntry → Bool) (e : ReadyEntry) : List ReadyEntry → Type 0 where
  here : (es : List ReadyEntry) → eligible e ≡ true → IsNext eligible e (e ∷ es)
  there :
      (x : ReadyEntry) (es : List ReadyEntry) → IsNext eligible e es → IsNext eligible e (x ∷ es)

abbrev chosen : (ReadyEntry → Bool) → ReadyEntry → Option ReadyEntry → Option ReadyEntry
chosen eligible e best = if eligible e then sooner e best else best

chosen-cases :
    (eligible : ReadyEntry → Bool) (x e : ReadyEntry) (best : Option ReadyEntry)
    → chosen eligible x best ≡ some e
    → (eligible x ≡ true) × (x ≡ e) ⊎ (best ≡ some e)
chosen-cases eligible x e none h = ground arith
chosen-cases eligible x e (some b) h = ground arith

pub next_entry-IsNext :
    (eligible : ReadyEntry → Bool) (es : List ReadyEntry) (e : ReadyEntry)
    → next_entry eligible es ≡ some e
    → IsNext eligible e es
unfolding next_entry
next_entry-IsNext eligible [] e h = cc
next_entry-IsNext eligible (x ∷ es) e h =
    elim (chosen-cases eligible x e (next_entry eligible es) h) [
      | inl first ↦ subst (λ y. IsNext eligible y (x ∷ es)) first.1 (here es first.0)
      | inr later ↦ there x es (next_entry-IsNext eligible es e later)
    ]

-- The cursor passes the entry that it is set to.
pub remaining-less :
    (eligible : ReadyEntry → Bool) (after : Option Cursor) (e : ReadyEntry) (es : List ReadyEntry)
    → ((x : ReadyEntry) → eligible x ≡ true → past after (cursor_of x) ≡ true)
    → IsNext eligible e es
    → (past after (cursor_of e) ≡ true) × (remaining (some (cursor_of e)) es < remaining after es)
remaining-less eligible after e _ only (here es passes) = (
  only e passes,
  ground (arith, remaining-cursor after (cursor_of e) es (only e passes), only e passes),
)
remaining-less eligible after e _ only (there x es rest) =
    let less = remaining-less eligible after e es only rest in
    (less.0, ground (arith, less.1, past-cursor after (cursor_of e) (cursor_of x) less.0))
