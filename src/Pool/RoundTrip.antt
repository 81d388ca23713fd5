-- ===== src/Pool/RoundTrip.antt =====
-- Frames written to a pipe and read from it.
use mathlib.Core.List.{append-nil, append_assoc}
use sqlery.Prelude.{
  ap, ◌∙◌, ℕ, zero, suc, ◌+◌, ◌-◌, ◌≤◌, ◌<◌, ◌≡◌, some, List, [], ◌∷◌, ◌++◌, length, take, drop,
  arith, refl, take-append-drop, take-append, drop-append, length-drop, length-take, length-append,
  min,
}
use sqlery.Pool.Frames.{
  Pipe, Transfer, pack_length, unpack_length, Received, closed, received, os_read, read_exact,
  write_all,
}

pub unpack_length-pack_length :
    (n : ℕ) (header : List ℕ)
    → pack_length n ≡ some header
    → (length header ≡ 4) × (unpack_length header ≡ n)
unfolding pack_length unpack_length
unpack_length-pack_length n header h = ground arith

module _ (t : Transfer) where
  -- What a call hands out of a pipe that holds at least what is asked for.
  abbrev share : List ℕ → ℕ → ℕ
  share xs calls = t.amount calls (length xs)

  share-le : (xs : List ℕ) (calls : ℕ) → share xs calls ≤ length xs
  share-le xs calls = t.within calls (length xs)

  os_read_lem :
      (x : ℕ) (xs rest : List ℕ) (calls : ℕ)
      → os_read t (suc (length xs)) (record { bytes = (x ∷ xs) ++ rest; calls = calls }) ≡ (
        take (share (x ∷ xs) calls) (x ∷ xs),
        record { bytes = drop (share (x ∷ xs) calls) (x ∷ xs) ++ rest; calls = calls + 1 },
      )
  unfolding os_read
  os_read_lem x xs rest calls =
      let all : min (suc (length xs)) (suc (length (xs ++ rest))) ≡ suc (length xs) =
        omega (arith, length-append xs rest) in
      rw all (
        rw
          (
            take-append (share (x ∷ xs) calls) (x ∷ xs) rest (share-le (x ∷ xs) calls),
            drop-append (share (x ∷ xs) calls) (x ∷ xs) rest (share-le (x ∷ xs) calls),
          )
          refl)

  read_exact_more :
      (fuel size : ℕ) (chunks chunk : List ℕ) (p p' : Pipe)
      → os_read t (suc size) p ≡ (chunk, p')
      → 0 < length chunk
      → read_exact t (suc fuel) (suc size) chunks p
        ≡ read_exact t fuel (suc size - length chunk) (chunks ++ chunk) p'
  unfolding read_exact
  read_exact_more fuel size chunks [] p p' e h = absurd (omega arith)
  read_exact_more fuel size chunks (c ∷ chunk) p p' e h = rw e refl

  read_exact_none :
      (fuel : ℕ) (chunks : List ℕ) (p : Pipe) → read_exact t fuel 0 chunks p ≡ (received chunks, p)
  unfolding read_exact
  read_exact_none fuel chunks p = refl

  -- A read of what stands first on the pipe returns it, however the system cuts it.
  pub read_exact_lem :
      (fuel : ℕ) (xs rest chunks : List ℕ) (calls : ℕ)
      → length xs ≤ fuel
      → (calls' : ℕ) × (read_exact t fuel
            (length xs)
            chunks
            (record { bytes = xs ++ rest; calls = calls })
          ≡ (received (chunks ++ xs), record { bytes = rest; calls = calls' }))
  read_exact_lem fuel [] rest chunks calls h =
      (calls, rw (append-nil chunks) (read_exact_none fuel chunks _))
  read_exact_lem zero (x ∷ xs) rest chunks calls h = absurd (omega arith)
  read_exact_lem (suc fuel) (x ∷ xs) rest chunks calls h =
      let n = share (x ∷ xs) calls in
      let taken = length-take n (x ∷ xs) (share-le (x ∷ xs) calls) in
      let left = length-drop n (x ∷ xs) (share-le (x ∷ xs) calls) in
      let any : 0 < length (take n (x ∷ xs)) =
        omega (arith, taken, t.positive calls (length (x ∷ xs))) in
      let size : suc (length xs) - length (take n (x ∷ xs)) ≡ length (drop n (x ∷ xs)) =
        omega (arith, taken, left) in
      let more =
        read_exact_lem fuel (drop n (x ∷ xs)) rest (chunks ++ take n (x ∷ xs)) (calls + 1)
          (omega (arith, taken, left, any)) in
      (
        more.0,
        read_exact_more fuel (length xs) chunks (take n (x ∷ xs))
              (record { bytes = (x ∷ xs) ++ rest; calls = calls })
              (record { bytes = drop n (x ∷ xs) ++ rest; calls = calls + 1 })
              (os_read_lem x xs rest calls) any
            ∙ ap
                (λ k.
                  read_exact t fuel k (chunks ++ take n (x ∷ xs))
                    (record { bytes = drop n (x ∷ xs) ++ rest; calls = calls + 1 }))
                size
            ∙ more.1
            ∙ ap (λ ys. (received ys, record { bytes = rest; calls = more.0 }))
                (append_assoc chunks (take n (x ∷ xs)) (drop n (x ∷ xs))
                  ∙ ap (λ ys. chunks ++ ys) (take-append-drop n (x ∷ xs))),
      )

  os_read_short :
      (size : ℕ) (xs : List ℕ) (calls : ℕ)
      → length xs ≤ size
      → os_read t size (record { bytes = xs; calls = calls })
        ≡ (take (share xs calls) xs, record { bytes = drop (share xs calls) xs; calls = calls + 1 })
  unfolding os_read
  os_read_short size xs calls h =
      let all : min size (length xs) ≡ length xs = omega arith in rw all refl

  take-none : (n : ℕ) (xs : List ℕ) → n ≤ 0 → take n xs ≡ []
  take-none zero xs h = refl
  take-none (suc n) xs h = absurd (omega arith)

  read_exact_end :
      (fuel size calls : ℕ) (chunks : List ℕ)
      → (read_exact t (suc fuel) (suc size) chunks (record { bytes = []; calls = calls })).0
        ≡ closed
  unfolding read_exact
  read_exact_end fuel size calls chunks =
      rw
        (
          os_read_short (suc size) [] calls (omega arith),
          take-none (share [] calls) [] (t.within calls 0),
        )
        refl

  -- A read of more bytes than the writer sent finds the pipe closed.
  pub read_exact-closed :
      (fuel size : ℕ) (xs chunks : List ℕ) (calls : ℕ)
      → length xs < size
      → size ≤ fuel
      → (read_exact t fuel size chunks (record { bytes = xs; calls = calls })).0 ≡ closed
  read_exact-closed fuel zero xs chunks calls h k = absurd (omega arith)
  read_exact-closed zero (suc size) xs chunks calls h k = absurd (omega arith)
  read_exact-closed (suc fuel) (suc size) [] chunks calls h k =
      read_exact_end fuel size calls chunks
  read_exact-closed (suc fuel) (suc size) (x ∷ xs) chunks calls h k =
      let n = share (x ∷ xs) calls in
      let taken = length-take n (x ∷ xs) (share-le (x ∷ xs) calls) in
      let left = length-drop n (x ∷ xs) (share-le (x ∷ xs) calls) in
      let any : 0 < length (take n (x ∷ xs)) =
        omega (arith, taken, t.positive calls (length (x ∷ xs))) in
      ap (λ (r : Received (List ℕ) × Pipe). r.0)
        (read_exact_more fuel size chunks (take n (x ∷ xs))
          (record { bytes = x ∷ xs; calls = calls })
          (record { bytes = drop n (x ∷ xs); calls = calls + 1 })
          (os_read_short (suc size) (x ∷ xs) calls (omega arith)) any)
      ∙ read_exact-closed fuel (suc size - length (take n (x ∷ xs))) (drop n (x ∷ xs))
          (chunks ++ take n (x ∷ xs)) (calls + 1) (omega (arith, taken, left)) (omega (arith, any))

  -- Everything is written, however the system cuts it.
  pub write_all_lem :
      (fuel : ℕ) (xs before : List ℕ) (calls : ℕ)
      → length xs ≤ fuel
      → (calls' : ℕ) × (write_all t fuel xs (record { bytes = before; calls = calls })
          ≡ some (record { bytes = before ++ xs; calls = calls' }))
  unfolding write_all
  write_all_lem fuel [] before calls h = (calls, rw (append-nil before) refl)
  write_all_lem zero (x ∷ xs) before calls h = absurd (omega arith)
  write_all_lem (suc fuel) (x ∷ xs) before calls h =
      let n = share (x ∷ xs) calls in
      let left = length-drop n (x ∷ xs) (share-le (x ∷ xs) calls) in
      let more =
        write_all_lem fuel (drop n (x ∷ xs)) (before ++ take n (x ∷ xs)) (calls + 1)
          (omega (arith, left, t.positive calls (length (x ∷ xs)))) in
      (
        more.0,
        more.1
            ∙ ap (λ ys. some (record { bytes = ys; calls = more.0 }))
                (append_assoc before (take n (x ∷ xs)) (drop n (x ∷ xs))
                  ∙ ap (λ ys. before ++ ys) (take-append-drop n (x ∷ xs))),
      )

  -- Enough fuel is given by the size.
  pub read_exact_all :
      (n : ℕ) (xs rest : List ℕ) (calls : ℕ)
      → n ≡ length xs
      → (calls' : ℕ) × (read_exact t n n [] (record { bytes = xs ++ rest; calls = calls })
          ≡ (received xs, record { bytes = rest; calls = calls' }))
  read_exact_all n xs rest calls e =
      rw e (read_exact_lem (length xs) xs rest [] calls (omega arith))
