-- ===== src/Triggers/Cache.antt =====
-- The idempotency cache of src/sqlery/core/triggers.py: the keys of the requests that were dispatched,
-- oldest first, with the time of each in microseconds.
use sqlery.Prelude.{
  ℕ, ◌+◌, Bool, true, false, not, ◌&&◌, ◌||◌, List, [], ◌∷◌, ◌++◌, Text, text_eq, ltb,
  if◌then◌else◌, length,
}
use sqlery.Backend.{select_where}

-- `(timestamp, signature)`
abbrev pub Key : Type 0
Key = Text × Text

abbrev pub Seen : Type 0
Seen = List (Key × ℕ)

abbrev pub key_eq : Key → Key → Bool
key_eq k l = text_eq k.0 l.0 && text_eq k.1 l.1

-- `now - ts > _IDEMPOTENCY_TTL_SECONDS`
abbrev pub is_expired : (now : ℕ) → Key × ℕ → Bool
is_expired now entry = ltb (entry.1 + 30000000) now

abbrev pub evict : (now : ℕ) → Seen → Seen
evict now cache = select_where (λ entry. not (is_expired now entry)) cache

unfoldable pub has_key : Key → Seen → Bool
has_key k [] = false
has_key k (entry ∷ rest) = key_eq entry.0 k || has_key k rest

-- `while len(...) > _IDEMPOTENCY_MAX_ENTRIES: popitem(last=False)`
unfoldable pub trim : Seen → Seen
trim [] = []
trim (entry ∷ rest) =
    let popped = trim rest in if ltb 1024 (length (entry ∷ rest)) then popped else entry ∷ rest

-- `_idempotency_seen`
unfoldable pub idempotency_seen : (now : ℕ) → Key → Seen → Bool × Seen
unfolding has_key trim
idempotency_seen now k cache =
    if has_key k (evict now cache)
    then (true, evict now cache)
    else (false, trim (evict now cache ++ (k, now) ∷ []))
