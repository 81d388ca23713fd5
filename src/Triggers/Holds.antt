-- ===== src/Triggers/Holds.antt =====
-- An entry of the idempotency cache of src/sqlery/core/triggers.py, and how many stand after it.
use sqlery.Prelude.{
  ℕ, suc, ◌≤◌, ◌<◌, ◌≡◌, Bool, true, false, not, [], ◌∷◌, ◌++◌, text_eq_self, ltb, length,
  length-append, arith, Bool-cases, inl, inr,
}
use sqlery.Backend.{select_where}
use sqlery.Triggers.Cache.{Seen, Key, is_expired, evict, has_key, trim}

-- The entry is in the cache, with at most `n` entries after it.
pub data Holds (x : Key × ℕ) (n : ℕ) : Seen → Type 0 where
  at : {rest : Seen} → length rest ≤ n → Holds x n (x ∷ rest)
  past : {y : Key × ℕ} {rest : Seen} → Holds x n rest → Holds x n (y ∷ rest)

length-select_where : (test : Key × ℕ → Bool) (c : Seen) → length (select_where test c) ≤ length c
length-select_where test [] = omega arith
length-select_where test (x ∷ xs) = ground (arith, length-select_where test xs)

pub Holds-evict :
    (now : ℕ) (x : Key × ℕ) (n : ℕ) (c : Seen)
    → is_expired now x ≡ false
    → Holds x n c
    → Holds x n (evict now c)
Holds-evict now x n [] young h = elim h [ ]
Holds-evict now x n (y ∷ rest) young (at few) =
    rw young (at (omega (arith, few, length-select_where (λ e. not (is_expired now e)) rest)))
Holds-evict now x n (y ∷ rest) young (past h) = elim (Bool-cases (is_expired now y)) [
  | inl old ↦ rw old (Holds-evict now x n rest young h)
  | inr fresh ↦ rw fresh (past (Holds-evict now x n rest young h))
]

pub Holds-append : (x y : Key × ℕ) (n : ℕ) (c : Seen) → Holds x n c → Holds x (suc n) (c ++ y ∷ [])
Holds-append x y n [] h = elim h [ ]
Holds-append x y n (z ∷ rest) (at few) = at (omega (arith, few, length-append rest (y ∷ [])))
Holds-append x y n (z ∷ rest) (past h) = past (Holds-append x y n rest h)

pub Holds-trim : (x : Key × ℕ) (n : ℕ) (c : Seen) → n < 1024 → Holds x n c → Holds x n (trim c)
unfolding trim
Holds-trim x n [] small h = elim h [ ]
Holds-trim x n (y ∷ rest) small (at few) = elim (Bool-cases (ltb 1024 (length (y ∷ rest)))) [
  | inl many ↦ absurd (ground (arith, few, many))
  | inr fits ↦ rw fits (at few)
]
Holds-trim x n (y ∷ rest) small (past h) = elim (Bool-cases (ltb 1024 (length (y ∷ rest)))) [
  | inl many ↦ rw many (Holds-trim x n rest small h)
  | inr fits ↦ rw fits (past h)
]

pub Holds-has_key : (k : Key) (t n : ℕ) (c : Seen) → Holds (k, t) n c → has_key k c ≡ true
unfolding has_key
Holds-has_key k t n [] h = elim h [ ]
Holds-has_key k t n (y ∷ rest) (at few) = ground (arith, text_eq_self k.0, text_eq_self k.1)
Holds-has_key k t n (y ∷ rest) (past h) = ground (arith, Holds-has_key k t n rest h)

pub Holds-more : (x : Key × ℕ) (n m : ℕ) (c : Seen) → n ≤ m → Holds x n c → Holds x m c
Holds-more x n m [] le h = elim h [ ]
Holds-more x n m (y ∷ rest) le (at few) = at (omega (arith, le, few))
Holds-more x n m (y ∷ rest) le (past h) = past (Holds-more x n m rest le h)

-- A new entry stands at the end.
pub Holds-last : (x : Key × ℕ) (c : Seen) → Holds x 0 (c ++ x ∷ [])
Holds-last x [] = at (omega arith)
Holds-last x (y ∷ rest) = past (Holds-last x rest)
