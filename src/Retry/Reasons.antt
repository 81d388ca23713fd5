-- ===== src/Retry/Reasons.antt =====
-- The retry marker can be put on and taken off again.
use sqlery.Prelude.{
  ◌≡◌, ◌⊎◌, inl, inr, refl, true, false, some, [], ◌∷◌, ◌++◌, arith, Text, text_eq, text_eq_sound,
  strip_prefix, strip_prefix-append, strip_prefix_sound, Bool-cases, Option-cases,
}
use sqlery.Retry.{retry_pending, colon, pending_reason, settled_reason, is_retry_pending}

-- Whatever the original reason is, marking it and settling the mark gives it back, and the marked
-- reason is found by the sweeper's test.
pub settled_reason-pending_reason :
    (reason : Text)
    → (settled_reason (pending_reason reason) ≡ reason)
      × (is_retry_pending (some (pending_reason reason)) ≡ true)
unfolding settled_reason pending_reason is_retry_pending text_eq
settled_reason-pending_reason [] = (refl, refl)
settled_reason-pending_reason (c ∷ reason) =
    ground (arith, strip_prefix-append (retry_pending ++ colon ∷ []) (c ∷ reason))

-- Settling changes exactly the marked reasons: one that is not marked is kept, and one that is
-- marked is the bare marker, or the marker and a colon before the settled reason.
settled_reason-cases :
    (reason : Text)
    → ((is_retry_pending (some reason) ≡ false) × (settled_reason reason ≡ reason))
      ⊎ ((is_retry_pending (some reason) ≡ true)
          × ((reason ≡ retry_pending) × (settled_reason reason ≡ [])
              ⊎ (reason ≡ retry_pending ++ colon ∷ settled_reason reason)))
settled_reason-cases reason = elim (Bool-cases (text_eq reason retry_pending)) [
  | inl bare ↦
      unfold settled_reason is_retry_pending in
      rw bare (inr (refl, inl (text_eq_sound reason retry_pending bare, refl)))
  | inr other ↦ elim (Option-cases (strip_prefix (retry_pending ++ colon ∷ []) reason)) [
    | inl absent ↦ unfold settled_reason is_retry_pending in rw (other, absent) (inl (refl, refl))
    | inr (rest, found) ↦
        unfold settled_reason is_retry_pending in
        rw (other, found)
          (inr (refl, inr (strip_prefix_sound (retry_pending ++ colon ∷ []) reason rest found)))
  ]
]
