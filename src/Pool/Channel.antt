-- ===== src/Pool/Channel.antt =====
-- The pipe between a worker and its child: what one sends, the other receives.
use mathlib.Core.List.{append-nil, append_assoc}
use sqlery.Prelude.{
  front-eq, leb, Bool-cases, subst, inr, inl, Option-cases, ℕ, suc, ◌<◌, ◌≡◌, none, some, List, [],
  ◌∷◌, ◌++◌, length, take, drop, map, arith, refl, ap, sym, ◌∙◌, take-append-drop, length-take,
  length-append,
}
use sqlery.Pool.Frames.{
  Pipe, Transfer, pack_length, unpack_length, Received, closed, out_of_fuel, received, read_exact,
  write_all, encode_frame, read_frame, load, read_payload, send, send_all, read_frames,
}
use sqlery.Pool.RoundTrip.{
  read_exact_all, unpack_length-pack_length, read_exact-closed, write_all_lem,
}

module _ {ℓ} {A : Type ℓ} (dumps : A → List ℕ) where
  -- The parts of a frame.
  record Parts (x : A) (frame : List ℕ) : Type 0 where
    header : List ℕ
    whole : frame ≡ header ++ dumps x
    four : length header ≡ 4
    tells : unpack_length header ≡ length (dumps x)

  encode_frame-Parts : (x : A) (frame : List ℕ) → encode_frame dumps x ≡ some frame → Parts x frame
  unfolding encode_frame
  encode_frame-Parts x frame e = elim (Option-cases (pack_length (length (dumps x)))) [
    | inl without ↦ let impossible : none ≡ some frame = rw (without, encode_frame) at e in cc
    | inr (header, packed) ↦
        let parts = unpack_length-pack_length (length (dumps x)) header packed in
        let same : some (header ++ dumps x) ≡ some frame = rw (packed, encode_frame) at e in
        record { header = header; whole = cc; four = parts.0; tells = parts.1 }
  ]

module _ {ℓ} (t : Transfer) {A : Type ℓ} (dumps : A → List ℕ) where
  -- The bytes are the frames of the objects, one after the other.
  abbrev IsFrames : List A → List ℕ → Type 0
  IsFrames [] bytes = bytes ≡ []
  IsFrames (x ∷ xs) bytes =
      (frame : List ℕ) × (rest : List ℕ) × (encode_frame dumps x ≡ some frame)
      × (bytes ≡ frame ++ rest)
      × IsFrames xs rest

  send_lem :
      (x : A) (p p' : Pipe)
      → send t dumps x p ≡ some p'
      → (frame : List ℕ) × (encode_frame dumps x ≡ some frame) × (p'.bytes ≡ p.bytes ++ frame)
  unfolding send
  send_lem x p p' e = elim (Option-cases (encode_frame dumps x)) [
    | inl without ↦ let impossible : none ≡ some p' = rw (without, send) at e in cc
    | inr (frame, encoded) ↦
        let written : write_all t (length frame) frame p ≡ some p' = rw (encoded, send) at e in
        let all = write_all_lem t (length frame) frame p.bytes p.calls (omega arith) in
        (frame, encoded, ground (arith, all.1))
  ]

  send_all-IsFrames :
      (xs : List A) (p p' : Pipe)
      → send_all t dumps xs p ≡ some p'
      → (added : List ℕ) × (p'.bytes ≡ p.bytes ++ added) × IsFrames xs added
  unfolding send_all
  send_all-IsFrames [] p p' e = ([], ground (arith, append-nil p.bytes), refl)
  send_all-IsFrames (x ∷ xs) p p' e = elim (Option-cases (send t dumps x p)) [
    | inl failed ↦ let impossible : none ≡ some p' = rw (failed, send_all) at e in cc
    | inr (p1, sent) ↦
        let more : send_all t dumps xs p1 ≡ some p' = rw (sent, send_all) at e in
        let first = send_lem x p p1 sent in
        let rest = send_all-IsFrames xs p1 p' more in
        (
          first.0 ++ rest.0,
          rest.1 ∙ ap (λ b. b ++ rest.0) first.2 ∙ append_assoc p.bytes first.0 rest.0,
          (first.0, rest.0, first.1, refl, rest.2),
        )
  ]

module _ {ℓ} (t : Transfer) {A : Type ℓ} (dumps : A → List ℕ) (loads : List ℕ → A) where
  read_frame-closed :
      (header : Received (List ℕ) × Pipe)
      → header.0 ≡ closed
      → (read_payload t loads header).0 ≡ closed
  read_frame-closed (closed, p) e = refl
  read_frame-closed (out_of_fuel, p) e = cc
  read_frame-closed (received header, p) e = cc

  load-closed :
      (payload : Received (List ℕ) × Pipe) → payload.0 ≡ closed → (load t loads payload).0 ≡ closed
  load-closed (closed, p) e = refl
  load-closed (out_of_fuel, p) e = cc
  load-closed (received payload, p) e = cc

  read_frame-end :
      (calls : ℕ) → (read_frame t loads (record { bytes = []; calls = calls })).0 ≡ closed
  unfolding read_frame
  read_frame-end calls =
      read_frame-closed (read_exact t 4 4 [] (record { bytes = []; calls = calls }))
        (read_exact-closed t 4 4 [] [] calls (omega arith) (omega arith))

  -- The part of a frame that follows its header.
  cut_payload :
      (x : A) (header part sent lost : List ℕ) (b : ℕ) (parts : Parts dumps x (sent ++ b ∷ lost))
      → sent ≡ header ++ part
      → length header ≡ 4
      → (header ≡ parts.header) × (length part < length (dumps x))
  cut_payload x header part sent lost b parts same four =
      let whole : header ++ (part ++ b ∷ lost) ≡ parts.header ++ dumps x =
        sym (append_assoc header part (b ∷ lost))
        ∙ ap (λ ys. ys ++ b ∷ lost) (sym same)
        ∙ parts.whole in
      let heads : header ≡ parts.header =
        front-eq header parts.header (part ++ b ∷ lost) (dumps x) whole (four ∙ sym parts.four) in
      (
        heads,
        omega (
          arith,
          ap length whole,
          length-append header (part ++ b ∷ lost),
          length-append part (b ∷ lost),
          length-append parts.header (dumps x),
          parts.four,
        ),
      )

  -- A writer that dies before it has written a frame whole leaves a closed pipe, never an object.
  pub read_frame-cut :
      (x : A) (sent lost : List ℕ) (b calls : ℕ)
      → encode_frame dumps x ≡ some (sent ++ b ∷ lost)
      → (read_frame t loads (record { bytes = sent; calls = calls })).0 ≡ closed
  unfolding read_frame
  read_frame-cut x sent lost b calls e = elim (Bool-cases (leb 4 (length sent))) [
    | inr short ↦
        read_frame-closed (read_exact t 4 4 [] (record { bytes = sent; calls = calls }))
          (read_exact-closed t 4 4 sent [] calls (ground arith) (omega arith))
    | inl long ↦
        let parts = encode_frame-Parts dumps x (sent ++ b ∷ lost) e in
        let split = sym (take-append-drop 4 sent) in
        let four = length-take 4 sent (ground arith) in
        let cut = cut_payload x (take 4 sent) (drop 4 sent) sent lost b parts split four in
        let head = read_exact_all t 4 (take 4 sent) (drop 4 sent) calls (sym four) in
        ap (λ bs. (read_frame t loads (record { bytes = bs; calls = calls })).0) split
        ∙ rw head.1 (
            load-closed
              (read_exact t (unpack_length (take 4 sent)) (unpack_length (take 4 sent)) []
                (record { bytes = drop 4 sent; calls = head.0 }))
              (read_exact-closed t (unpack_length (take 4 sent)) (unpack_length (take 4 sent))
                (drop 4 sent) [] head.0 (rw cut.0 (rw parts.tells cut.1)) (omega arith)))
  ]

module _ {ℓ} (t : Transfer) {A : Type ℓ} (dumps : A → List ℕ) (loads : List ℕ → A)
    (loads-dumps : (x : A) → loads (dumps x) ≡ x) where
  -- The first frame of the pipe is the first object.
  read_frame_lem :
      (x : A) (frame rest : List ℕ) (calls : ℕ)
      → encode_frame dumps x ≡ some frame
      → (calls' : ℕ) × (read_frame t loads (record { bytes = frame ++ rest; calls = calls })
          ≡ (received x, record { bytes = rest; calls = calls' }))
  unfolding read_frame
  read_frame_lem x frame rest calls e =
      let parts = encode_frame-Parts dumps x frame e in
      let head = read_exact_all t 4 parts.header (dumps x ++ rest) calls (sym parts.four) in
      let body = read_exact_all t (unpack_length parts.header) (dumps x) rest head.0 parts.tells in
      (
        body.0,
        ap (λ b. read_frame t loads (record { bytes = b ++ rest; calls = calls })) parts.whole
            ∙ rw (append_assoc parts.header (dumps x) rest)
                (rw head.1 (rw body.1 (rw (loads-dumps x)))),
      )

  read_frames_lem :
      (xs : List A) (bytes : List ℕ) (calls : ℕ)
      → IsFrames t dumps xs bytes
      → (read_frames t loads (suc (length xs)) (record { bytes = bytes; calls = calls })).0
        ≡ map received xs ++ closed ∷ []
  unfolding read_frames
  read_frames_lem [] bytes calls e = rw e (ap (λ x. x ∷ []) (read_frame-end t dumps loads calls))
  read_frames_lem (x ∷ xs) bytes calls (frame, rest, encoded, whole, more) =
      let first = read_frame_lem x frame rest calls encoded in
      rw whole (rw first.1 (ap (λ ys. received x ∷ ys) (read_frames_lem xs rest first.0 more)))

  -- Where pickle loads what it dumped, and reads and writes move any number of bytes but 0: objects
  -- that were sent one after the other without an error into an empty pipe are received in their
  -- order, and then the pipe is closed.
  pub read_frames-send_all :
      (xs : List A) (p : Pipe) (calls : ℕ)
      → send_all t dumps xs (record { bytes = []; calls = calls }) ≡ some p
      → (read_frames t loads (suc (length xs)) p).0 ≡ map received xs ++ closed ∷ []
  read_frames-send_all xs p calls sent =
      let frames = send_all-IsFrames t dumps xs (record { bytes = []; calls = calls }) p sent in
      read_frames_lem xs p.bytes p.calls (subst (IsFrames t dumps xs) (sym frames.1) frames.2)
