-- ===== src/Staging/Promotion.antt =====
-- The row of a promoted job, and that of a job that was never staged.
use sqlery.Prelude.{
  ◌||◌, ℕ, ◌≡◌, Bool, true, false, not, ◌&&◌, Option, none, some, List, [], ◌∷◌, String, str_eq,
  str_eq_iff, refl, subst, ap, ◌∙◌, Bool-cases, inl, inr, All,
}
use sqlery.Staging.{
  Value, Dict, get, Arguments, queued_job, staging_row, staged_values, Column, Neutral, neutral,
  now_time, no_neutral, column_values, neutral_values, promotion_insert_parts,
}

-- A column of the table.
abbrev pub has_column : String → List Column → Bool
has_column name [] = false
has_column name (c ∷ cs) = str_eq c.name name || has_column name cs

-- Every entry of the one dictionary is found in the other.
abbrev Agrees : Dict → Dict → Type 0
Agrees d e = All (λ entry. get entry.0 e ≡ some entry.1) d

get-Agrees :
    (d e : Dict) (key : String) (v : Value) → Agrees d e → get key d ≡ some v → get key e ≡ some v
unfolding get
get-Agrees [] e key v agree h = cc
get-Agrees ((k, w) ∷ rest) e key v agree h = elim (Bool-cases (str_eq k key)) [
  | inl y ↦
      let same_key : k ≡ key = (str_eq_iff k key).0 y in
      let same : some w ≡ some v = rw y at h in
      subst (λ u. get u e ≡ some v) same_key (agree.0 ∙ same)
  | inr n ↦ get-Agrees rest e key v agree.1 (rw n at h)
]

staged_values-Agrees :
    (id created_at : ℕ) (a : Arguments)
    → Agrees (queued_job a) (staged_values (staging_row id created_at a))
unfolding queued_job staged_values staging_row get
staged_values-Agrees id created_at a = search

-- The values of other columns do not matter to a column.
get-column_values :
    (now : ℕ) (c : Column) (key : String) (x y : Option Value) (rest : Dict)
    → str_eq c.name key ≡ false
    → get key (column_values now c x y rest) ≡ get key rest
unfolding get
get-column_values now c key (some v) y rest other = rw other refl
get-column_values now c key none (some v) rest other = rw other refl
get-column_values now c key none none rest other =
    elim (Bool-cases (c.not_null && not c.has_default)) [
      | inl required ↦ rw required (given c.otherwise)
      | inr free ↦ rw free refl
    ]
  where
    given : (o : Neutral) → get key (neutral_values now c.name o rest) ≡ get key rest
    given (neutral v) = rw other refl
    given now_time = rw other refl
    given no_neutral = refl

get-promotion_insert_parts :
    (now : ℕ) (columns : List Column) (staged defaults : Dict) (key : String) (v : Value)
    → has_column key columns ≡ true
    → get key staged ≡ some v
    → get key (promotion_insert_parts now columns staged defaults) ≡ some v
unfolding promotion_insert_parts
get-promotion_insert_parts now [] staged defaults key v h e = cc
get-promotion_insert_parts now (c ∷ cs) staged defaults key v h e =
    elim (Bool-cases (str_eq c.name key)) [
      | inl own ↦
          let same : c.name ≡ key = (str_eq_iff c.name key).0 own in
          let held : get c.name staged ≡ some v = ap (λ k. get k staged) same ∙ e in
          rw held (written c.name own)
      | inr other ↦
          get-column_values now c key (get c.name staged) (get c.name defaults)
            (promotion_insert_parts now cs staged defaults) other
          ∙ get-promotion_insert_parts now cs staged defaults key v (rw other at h) e
    ]
  where
    written :
        (name : String)
        → str_eq name key ≡ true
        → get key ((name, v) ∷ promotion_insert_parts now cs staged defaults) ≡ some v
    written name own = rw (own, get) refl

-- A job that was staged and is promoted gets the row that it would have had at once: for every
-- attribute that create_job sets on a queued job, and that is a column of the table, the row has the
-- same value, whatever the other columns and their defaults are.
pub promoted_row-queued_job :
    (now id created_at : ℕ) (columns : List Column) (defaults : Dict) (a : Arguments) (key : String)
    (v : Value)
    → has_column key columns ≡ true
    → get key (queued_job a) ≡ some v
    → get key
        (promotion_insert_parts now columns (staged_values (staging_row id created_at a)) defaults)
      ≡ some v
promoted_row-queued_job now id created_at columns defaults a key v h e =
    get-promotion_insert_parts now columns (staged_values (staging_row id created_at a)) defaults
      key v h
      (get-Agrees (queued_job a) (staged_values (staging_row id created_at a)) key v
        (staged_values-Agrees id created_at a) e)
