-- ===== src/Backend/Order.antt =====
-- The claim order, and the tag limits that hold a candidate back.
use sqlery.Prelude.{
  ltb, ◌⊎◌, inr, inl, if◌then◌else◌, Bool-cases, ℕ, ◌<◌, ◌≡◌, Bool, true, false, Option, none, some,
  List, [], ◌∷◌, String, arith, All, str_eq, str_eq_iff, subst,
}
use sqlery.Backend.{ReadyEntry, Db}
use sqlery.Backend.Scan.{
  Cursor, is_eligible, cursor_of, comes_after, next_entry, sooner, Limits, tag_limited, tag_holds,
  listed, running_with_tag,
}

-- No eligible entry of the list comes before `e`.
abbrev pub NoneBefore : (ReadyEntry → Bool) → ReadyEntry → List ReadyEntry → Type 0
NoneBefore eligible e =
    All (λ x. eligible x ≡ true → comes_after (cursor_of x) (cursor_of e) ≡ false)

-- The result of the search: without one no entry is eligible.
abbrev pub IsFirst : (ReadyEntry → Bool) → List ReadyEntry → Option ReadyEntry → Type 0
IsFirst eligible es none = All (λ x. eligible x ≡ false) es
IsFirst eligible es (some e) = (eligible e ≡ true) × NoneBefore eligible e es

NoneBefore-sooner :
    (eligible : ReadyEntry → Bool) (e best : ReadyEntry) (es : List ReadyEntry)
    → comes_after (cursor_of e) (cursor_of best) ≡ true
    → NoneBefore eligible best es
    → NoneBefore eligible e es
NoneBefore-sooner eligible e best [] h all = tt
NoneBefore-sooner eligible e best (x ∷ es) h all =
    (λ p. ground (arith, all.0 p), NoneBefore-sooner eligible e best es h all.1)

NoneBefore-none :
    (eligible : ReadyEntry → Bool) (e : ReadyEntry) (es : List ReadyEntry)
    → All (λ x. eligible x ≡ false) es
    → NoneBefore eligible e es
NoneBefore-none eligible e [] all = tt
NoneBefore-none eligible e (x ∷ es) all =
    (λ p. ground (arith, all.0), NoneBefore-none eligible e es all.1)

abbrev chosen : (ReadyEntry → Bool) → ReadyEntry → Option ReadyEntry → Option ReadyEntry
chosen eligible e best = if eligible e then sooner e best else best

chosen-IsFirst :
    (eligible : ReadyEntry → Bool) (x : ReadyEntry) (es : List ReadyEntry)
    (best : Option ReadyEntry)
    → IsFirst eligible es best
    → IsFirst eligible (x ∷ es) (chosen eligible x best)
chosen-IsFirst eligible x es none first = elim (Bool-cases (eligible x)) [
  | inl y ↦ rw y (y, (λ p. ground arith, NoneBefore-none eligible x es first))
  | inr n ↦ rw n (n, first)
]
chosen-IsFirst eligible x es (some b) first = elim (Bool-cases (eligible x)) [
  | inl y ↦ elim (Bool-cases (comes_after (cursor_of x) (cursor_of b))) [
    | inl s ↦ rw (y, s) (y, (λ p. ground arith, NoneBefore-sooner eligible x b es s first.1))
    | inr m ↦ rw (y, m) (first.0, (λ p. m, first.1))
  ]
  | inr n ↦ rw n (first.0, (λ p. ground arith, first.1))
]

chosen-next :
    (eligible : ReadyEntry → Bool) (es : List ReadyEntry)
    → IsFirst eligible es (next_entry eligible es)
unfolding next_entry
chosen-next eligible [] = tt
chosen-next eligible (x ∷ es) =
    chosen-IsFirst eligible x es (next_entry eligible es) (chosen-next eligible es)

-- A higher priority comes first, then an earlier creation, then a smaller id.
abbrev pub IsBefore : (a b : ReadyEntry) → Type 0
IsBefore a b =
    (b.priority < a.priority)
    ⊎ (a.priority ≡ b.priority)
      × ((a.created_at < b.created_at) ⊎ (a.created_at ≡ b.created_at) × (a.job_id < b.job_id))

abbrev pub IsSameKey : (a b : ReadyEntry) → Type 0
IsSameKey a b = (a.priority ≡ b.priority) × (a.created_at ≡ b.created_at) × (a.job_id ≡ b.job_id)

-- Without an entry none is eligible; an entry is eligible and before every other eligible one.
abbrev pub IsNext : (ReadyEntry → Bool) → List ReadyEntry → Option ReadyEntry → Type 0
IsNext eligible es none = All (λ x. eligible x ≡ false) es
IsNext eligible es (some e) =
    (eligible e ≡ true) × All (λ x. eligible x ≡ true → IsBefore e x ⊎ IsSameKey e x) es

IsBefore-of_keys :
    (a b : ReadyEntry)
    → comes_after (cursor_of b) (cursor_of a) ≡ false
    → IsBefore a b ⊎ IsSameKey a b
IsBefore-of_keys a b h = elim (Bool-cases (ltb b.priority a.priority)) [
  | inl higher ↦ inl (inl (ground arith))
  | inr p ↦ elim (Bool-cases (ltb a.created_at b.created_at)) [
    | inl earlier ↦ inl (inr (ground arith, inl (ground arith)))
    | inr c ↦ elim (Bool-cases (ltb a.job_id b.job_id)) [
      | inl smaller ↦ inl (inr (ground arith, inr (ground arith, ground arith)))
      | inr i ↦ inr (ground arith, ground arith, ground arith)
    ]
  ]
]

NoneBefore-IsBefore :
    (eligible : ReadyEntry → Bool) (e : ReadyEntry) (es : List ReadyEntry)
    → NoneBefore eligible e es
    → All (λ x. eligible x ≡ true → IsBefore e x ⊎ IsSameKey e x) es
NoneBefore-IsBefore eligible e [] h = tt
NoneBefore-IsBefore eligible e (x ∷ es) h =
    (λ p. IsBefore-of_keys e x (h.0 p), NoneBefore-IsBefore eligible e es h.1)

IsFirst-IsNext :
    (eligible : ReadyEntry → Bool) (es : List ReadyEntry) (best : Option ReadyEntry)
    → IsFirst eligible es best
    → IsNext eligible es best
IsFirst-IsNext eligible es none h = h
IsFirst-IsNext eligible es (some e) h = (h.0, NoneBefore-IsBefore eligible e es h.1)

-- The next entry is eligible for the scan, and every other eligible entry has a lower priority, or the
-- same and a later creation, or the same of both and a larger id (or has the same keys); if there is
-- none, no entry is eligible.
pub next_entry-IsFirst :
    (queues : List String) (now : ℕ) (locked : ℕ → Bool) (after : Option Cursor)
    (es : List ReadyEntry)
    → IsNext
        (is_eligible queues now locked after)
        es
        (next_entry (is_eligible queues now locked after) es)
next_entry-IsFirst queues now locked after es =
    let eligible = is_eligible queues now locked after in
    IsFirst-IsNext eligible es (next_entry eligible es) (chosen-next eligible es)

module _ (limits : Limits) (now : ℕ) (db : Db) where
  tag_holds-limits :
      (tag : String) (limit : ℕ)
      → limits.conc tag ≡ some limit
      → tag_holds limits now db tag ≡ false
      → running_with_tag tag db < limit
  tag_holds-limits tag limit e free = ground arith

  -- A candidate that no tag holds back has, under every concurrency limit on one of its tags, fewer
  -- running jobs with that tag than the limit allows.
  tag_limited-lt :
      (tags : List String) (tag : String) (limit : ℕ)
      → tag_limited limits now db tags ≡ false
      → listed tag tags ≡ true
      → limits.conc tag ≡ some limit
      → running_with_tag tag db < limit
  unfolding tag_limited
  tag_limited-lt [] tag limit free mine e = cc
  tag_limited-lt (p ∷ ps) tag limit free mine e = elim (Bool-cases (str_eq p tag)) [
    | inl same ↦
        let equal : p ≡ tag = (str_eq_iff p tag).0 same in
        tag_holds-limits tag limit e
          (subst (λ t. tag_holds limits now db t ≡ false) equal (ground arith))
    | inr other ↦ tag_limited-lt ps tag limit (ground arith) (ground arith) e
  ]
