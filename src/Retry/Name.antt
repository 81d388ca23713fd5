-- ===== src/Retry/Name.antt =====
-- core/retry.py, the name of a retry: `re.sub(r":retry:\d+", "", name)` and the next segment.
-- `decimal` is the class `\d` of code points, of which matters that a
-- colon and the letter r are no digits and that 0 to 9 are.
use Prim.Native.Nat.{◌/◌, ◌%◌}
use native.Mathlib.Numerals.{add-one}
use sqlery.Prelude.{
  Bool-cases, inl, inr, refl, ◌<◌, ◌≤◌, true, All, length, ℕ, zero, suc, ◌+◌, ◌-◌, ◌≡◌, Bool, false,
  Option, none, some, [], ◌∷◌, ◌++◌, arith, Text, codes, strip_prefix, if◌then◌else◌, ltb,
}

abbrev pub segment : Text
segment = codes ":retry:"

-- The digits of a number: `f"{n}"`. The fuel `n + 1` exceeds the number of digits.
pub print_digits : (fuel n : ℕ) → Text → Text
print_digits zero n acc = acc
print_digits (suc fuel) n acc =
    let more = print_digits fuel (n / 10) ((b'0' + n % 10) ∷ acc) in
    if ltb n 10 then (b'0' + n % 10) ∷ acc else more

unfoldable pub print : ℕ → Text
unfolding print_digits
print n = print_digits (n + 1) n []

module _ (decimal : ℕ → Bool) where
  abbrev pub digits_run : Text → ℕ
  digits_run [] = 0
  digits_run (c ∷ s) = if decimal c then suc (digits_run s) else 0

  -- The length of a match of the pattern at the start of a text.
  abbrev pub match_rest : Option Text → Option ℕ
  match_rest none = none
  match_rest (some []) = none
  match_rest (some (c ∷ s)) = if decimal c then some (8 + digits_run s) else none

  abbrev pub match_length : Text → Option ℕ
  match_length s = match_rest (strip_prefix segment s)

  -- `re.sub`: the leftmost matches are dropped; `skip` code points of one are still to go.
  pub sub_segments : (skip : ℕ) → Text → Text
  sub_segments skip [] = []
  sub_segments (suc skip) (c ∷ s) = sub_segments skip s
  sub_segments zero (c ∷ s) =
      let kept = sub_segments zero s in
      elim (match_length (c ∷ s)) [ none ↦ c ∷ kept | some n ↦ sub_segments (n - 1) s ]

  -- A job without a name, or with an empty one, has retries without one.
  unfoldable pub retry_name : Option Text → (retry_count : ℕ) → Option Text
  unfolding sub_segments
  retry_name none retry_count = none
  retry_name (some []) retry_count = none
  retry_name (some (c ∷ s)) retry_count =
      some (sub_segments zero (c ∷ s) ++ segment ++ print (retry_count + 1))

  -- No segment matches anywhere in the text.
  abbrev pub IsClean : Text → Type 0
  IsClean [] = Unit
  IsClean (c ∷ s) = (match_length (c ∷ s) ≡ none) × IsClean s

  -- What is documented of `\d`: the ASCII digits are in it, and a colon and a letter are not.
  pub record IsDecimal : Type 0 where
    pub colon : decimal b':' ≡ false
    pub letter : decimal b'r' ≡ false
    pub digit : (d : ℕ) → d < 10 → decimal (b'0' + d) ≡ true

module _ {decimal : ℕ → Bool} (d : IsDecimal decimal) where
  open d use {colon, letter, digit}

  -- A match cannot begin before an appended segment and run into it.
  match_length-append :
      (c : ℕ) (s t : Text)
      → match_length decimal (c ∷ s) ≡ none
      → match_length decimal ((c ∷ s) ++ segment ++ t) ≡ none
  unfolding strip_prefix
  match_length-append c [] t h = ground arith
  match_length-append c (c₁ ∷ []) t h = ground arith
  match_length-append c (c₁ ∷ c₂ ∷ []) t h = ground arith
  match_length-append c (c₁ ∷ c₂ ∷ c₃ ∷ []) t h = ground arith
  match_length-append c (c₁ ∷ c₂ ∷ c₃ ∷ c₄ ∷ []) t h = ground arith
  match_length-append c (c₁ ∷ c₂ ∷ c₃ ∷ c₄ ∷ c₅ ∷ []) t h = ground (arith, letter)
  match_length-append c (c₁ ∷ c₂ ∷ c₃ ∷ c₄ ∷ c₅ ∷ c₆ ∷ []) t h = ground (arith, colon)
  match_length-append c (c₁ ∷ c₂ ∷ c₃ ∷ c₄ ∷ c₅ ∷ c₆ ∷ c₇ ∷ s) t h = ground arith

  -- Skipping a whole text.
  sub_segments_skip : (k : ℕ) (s : Text) → length s ≤ k → sub_segments decimal k s ≡ []
  unfolding sub_segments
  sub_segments_skip k [] h = refl
  sub_segments_skip zero (c ∷ s) h = absurd (omega arith)
  sub_segments_skip (suc k) (c ∷ s) h = sub_segments_skip k s (omega arith)

  abbrev Digits : Text → Type 0
  Digits = All (λ c. decimal c ≡ true)

  digits_run-all : (s : Text) → Digits s → digits_run decimal s ≡ length s
  digits_run-all [] h = refl
  digits_run-all (c ∷ s) h = ground (arith, digits_run-all s h.1)

  sub_segments-segment :
      (c : ℕ) (s : Text) → Digits (c ∷ s) → sub_segments decimal zero (segment ++ c ∷ s) ≡ []
  unfolding sub_segments strip_prefix
  sub_segments-segment c s h = ground (
    arith,
    h.0,
    digits_run-all s h.1,
    sub_segments_skip (8 + digits_run decimal s - 1) (codes "retry:" ++ c ∷ s),
  )

  -- Stripping a clean text with one segment behind it gives the text.
  sub_segments-append :
      (base : Text) (c : ℕ) (s : Text)
      → IsClean decimal base
      → Digits (c ∷ s)
      → sub_segments decimal zero (base ++ segment ++ c ∷ s) ≡ base
  unfolding sub_segments
  sub_segments-append [] c s clean h = sub_segments-segment c s h
  sub_segments-append (b ∷ base) c s clean h =
      ground
        (arith, match_length-append b base (c ∷ s) clean.0, sub_segments-append base c s clean.1 h)

  print_digits-Digits : (fuel n : ℕ) (acc : Text) → Digits acc → Digits (print_digits fuel n acc)
  unfolding print_digits
  print_digits-Digits zero n acc h = h
  print_digits-Digits (suc fuel) n acc h = elim (Bool-cases (ltb n 10)) [
    | inl last ↦ rw last (digit (n % 10) (omega arith), h)
    | inr more ↦ rw more (
        print_digits-Digits fuel (n / 10) ((b'0' + n % 10) ∷ acc) (digit (n % 10) (omega arith), h))
  ]

  length-print_digits : (fuel n : ℕ) (acc : Text) → length acc ≤ length (print_digits fuel n acc)
  unfolding print_digits
  length-print_digits zero n acc = omega arith
  length-print_digits (suc fuel) n acc =
      ground (arith, length-print_digits fuel (n / 10) ((b'0' + n % 10) ∷ acc))

  print_digits-ne_nil : (fuel n : ℕ) → 0 < length (print_digits (suc fuel) n [])
  unfolding print_digits
  print_digits-ne_nil fuel n =
      ground (arith, length-print_digits fuel (n / 10) ((b'0' + n % 10) ∷ []))

  sub_segments-Digits :
      (base s : Text)
      → IsClean decimal base
      → Digits s
      → 0 < length s
      → sub_segments decimal zero (base ++ segment ++ s) ≡ base
  sub_segments-Digits base [] clean h ne = absurd (omega arith)
  sub_segments-Digits base (c ∷ s) clean h ne = sub_segments-append base c s clean h

  sub_segments-IsClean :
      (base : Text) → IsClean decimal base → sub_segments decimal zero base ≡ base
  unfolding sub_segments
  sub_segments-IsClean [] h = refl
  sub_segments-IsClean (c ∷ s) h = ground (arith, sub_segments-IsClean s h.1)

  -- The retry of a retry of a job with a name that is clean and not empty is named after the original
  -- name, with the last number alone, for any digit test that accepts the ASCII digits and neither
  -- `:` nor `r`.
  pub retry_name-retry_name :
      (c : ℕ) (s : Text) (first second : ℕ)
      → IsClean decimal (c ∷ s)
      → retry_name decimal (retry_name decimal (some (c ∷ s)) first) second
        ≡ some ((c ∷ s) ++ segment ++ print (second + 1))
  unfolding retry_name print
  retry_name-retry_name c s first second clean = rw (sub_segments-IsClean (c ∷ s) clean) (
      rw
        (sub_segments-Digits (c ∷ s) (print_digits (first + 1 + 1) (first + 1) []) clean
          (print_digits-Digits (first + 1 + 1) (first + 1) [] tt)
          (rw (add-one (first + 1)) (print_digits-ne_nil (first + 1) (first + 1))))
        refl)
