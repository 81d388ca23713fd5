-- ===== src/Pool/Frames.antt =====
-- The frames of src/sqlery/core/pool.py on a pipe: encode_frame, write_all, _read_exact, read_frame.
--
-- pickle and the system calls are parameters: a read hands out some of the bytes that are left, a
-- write takes some of the bytes that it is given, each as many as the system chooses.
use sqlery.Prelude.{
  ℕ, zero, suc, ◌+◌, ◌-◌, ◌*◌, ◌/◌, ◌%◌, ◌≤◌, ◌<◌, Option, none, some, List, [], ◌∷◌, ◌++◌, length,
  take, drop, ltb, if◌then◌else◌, is_empty, min,
}

-- The bytes that were sent, or will be until the writer closes, and are not read yet; and the number
-- of system calls that were made.
pub record Pipe : Type 0 where
  pub bytes : List ℕ
  pub calls : ℕ

-- How many of `size` bytes a call moves: at least one of them, if there are any.
pub record Transfer : Type 0 where
  pub amount : (call size : ℕ) → ℕ
  pub positive : (call size : ℕ) → 0 < size → 0 < amount call size
  pub within : (call size : ℕ) → amount call size ≤ size

-- `struct.Struct("!I").pack`: a length of 2 ** 32 or more raises struct.error.
unfoldable pub pack_length : ℕ → Option (List ℕ)
pack_length n =
    if ltb n 4294967296
    then some ((n / 16777216) ∷ (n / 65536 % 256) ∷ (n / 256 % 256) ∷ (n % 256) ∷ [])
    else none

-- `struct.Struct("!I").unpack` of four bytes.
unfoldable pub unpack_length : List ℕ → ℕ
unpack_length (a ∷ b ∷ c ∷ d ∷ _) = ((a * 256 + b) * 256 + c) * 256 + d
unpack_length _ = 0

-- `encode_frame`; none is struct.error.
unfoldable pub encode_frame {ℓ} : {A : Type ℓ} → (dumps : A → List ℕ) → A → Option (List ℕ)
unfolding pack_length
encode_frame dumps x = elim (pack_length (length (dumps x))) [
  | none ↦ none
  | some header ↦ some (header ++ dumps x)
]

-- What a reader receives: `closed` is None.
pub data Received {ℓ} (A : Type ℓ) : Type ℓ where
  closed : Received A
  out_of_fuel : Received A
  received : A → Received A

module _ (t : Transfer) where
  -- `os.read(fd, size)`: no bytes once all are read and the writer has closed.
  unfoldable pub os_read : ℕ → Pipe → List ℕ × Pipe
  os_read size p =
      let n = t.amount p.calls (min size (length p.bytes)) in
      (take n p.bytes, record { bytes = drop n p.bytes; calls = p.calls + 1 })

  -- `_read_exact`: the loop, with the chunks that were read joined.
  unfoldable pub read_exact : (fuel size : ℕ) → List ℕ → Pipe → Received (List ℕ) × Pipe
  read_exact fuel zero chunks p = (received chunks, p)
  read_exact zero (suc size) chunks p = (out_of_fuel, p)
  read_exact (suc fuel) (suc size) chunks p =
      let (chunk, p') = os_read (suc size) p in
      let rest = read_exact fuel (suc size - length chunk) (chunks ++ chunk) p' in
      if is_empty chunk then (closed, p') else rest

  -- `write_all`: the loop on the bytes that are left.
  unfoldable pub write_all : (fuel : ℕ) → List ℕ → Pipe → Option Pipe
  write_all fuel [] p = some p
  write_all zero (b ∷ view) p = none
  write_all (suc fuel) (b ∷ view) p =
      let n = t.amount p.calls (suc (length view)) in
      write_all fuel (drop n (b ∷ view))
        (record { bytes = p.bytes ++ take n (b ∷ view); calls = p.calls + 1 })

  module _ {ℓ} {A : Type ℓ} (loads : List ℕ → A) where
    abbrev pub load : Received (List ℕ) × Pipe → Received A × Pipe
    load (received payload, p) = (received (loads payload), p)
    load (closed, p) = (closed, p)
    load (out_of_fuel, p) = (out_of_fuel, p)

    abbrev pub read_payload : Received (List ℕ) × Pipe → Received A × Pipe
    read_payload (received header, p) =
        load (read_exact (unpack_length header) (unpack_length header) [] p)
    read_payload (closed, p) = (closed, p)
    read_payload (out_of_fuel, p) = (out_of_fuel, p)

    -- `read_frame`
    unfoldable pub read_frame : Pipe → Received A × Pipe
    read_frame p = read_payload (read_exact 4 4 [] p)

    -- `n` frames, read one after the other.
    unfoldable pub read_frames : ℕ → Pipe → List (Received A) × Pipe
    read_frames zero p = ([], p)
    read_frames (suc n) p =
        let (x, p') = read_frame p in let (xs, p'') = read_frames n p' in (x ∷ xs, p'')

  module _ {ℓ} {A : Type ℓ} (dumps : A → List ℕ) where
    -- One object down the pipe: `write_all(fd, encode_frame(obj))`.
    unfoldable pub send : A → Pipe → Option Pipe
    send x p = elim (encode_frame dumps x) [
      | none ↦ none
      | some frame ↦ write_all (length frame) frame p
    ]

    -- The objects one after the other; none is an error of any of them.
    unfoldable pub send_all : List A → Pipe → Option Pipe
    send_all [] p = some p
    send_all (x ∷ xs) p = elim (send x p) [ none ↦ none | some p' ↦ send_all xs p' ]
