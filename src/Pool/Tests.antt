-- ===== src/Pool/Tests.antt =====
-- Pools and pipes at concrete inputs: objects are numbers, and a call moves one byte.
use sqlery.Prelude.{ℕ, ◌≤◌, ◌<◌, ◌≡◌, true, none, some, List, [], ◌∷◌, arith, refl, min, codes}
use sqlery.Pool.{resolve_pool_settings, cpus_from, should_recycle, db_refresh_due}
use sqlery.Pool.Channel.{read_frames-send_all, read_frame-cut}
use sqlery.Pool.Frames.{
  Pipe, Transfer, closed, received, read_frames, read_frame, send_all, send, encode_frame,
  pack_length, write_all,
}

reuse_follows_tasks :
    (resolve_pool_settings (codes "fork") (some 50) none (some 0)).db_reuse_max ≡ some 50
unfolding resolve_pool_settings
reuse_follows_tasks = refl

quota_rounds_up : cpus_from (some 64) (some (150000, 100000)) ≡ 2
unfolding cpus_from
quota_rounds_up = refl

recycled_after_tasks : should_recycle 3 (some 3) none none ≡ true
unfolding should_recycle
recycled_after_tasks = refl

refreshed_every_second : db_refresh_due 4 (some 2) ≡ true
unfolding db_refresh_due
refreshed_every_second = refl

one_byte_positive : (call size : ℕ) → 0 < size → 0 < min 1 size
one_byte_positive call size h = omega arith

one_byte_within : (call size : ℕ) → min 1 size ≤ size
one_byte_within call size = omega arith

abbrev one_byte : Transfer
one_byte = record {
  amount = λ call size. min 1 size;
  positive = one_byte_positive;
  within = one_byte_within;
}

-- A number is dumped as itself between two zeros.
abbrev dumps : ℕ → List ℕ
dumps n = 0 ∷ n ∷ 0 ∷ []

abbrev loads : List ℕ → ℕ
loads (_ ∷ n ∷ _) = n
loads _ = 0

loads-dumps : (n : ℕ) → loads (dumps n) ≡ n
loads-dumps n = refl

abbrev sent : Pipe
sent = record { bytes = 0 ∷ 0 ∷ 0 ∷ 3 ∷ 0 ∷ 8 ∷ 0 ∷ 0 ∷ 0 ∷ 0 ∷ 3 ∷ 0 ∷ 9 ∷ 0 ∷ []; calls = 14 }

sent_both : send_all one_byte dumps (8 ∷ 9 ∷ []) (record { bytes = []; calls = 0 }) ≡ some sent
unfolding send_all send encode_frame pack_length write_all
sent_both = refl

read_frames-send_all_example :
    (read_frames one_byte loads 3 sent).0 ≡ received 8 ∷ received 9 ∷ closed ∷ []
read_frames-send_all_example =
    read_frames-send_all one_byte dumps loads loads-dumps (8 ∷ 9 ∷ []) sent 0 sent_both

encoded : encode_frame dumps 8 ≡ some (0 ∷ 0 ∷ 0 ∷ 3 ∷ 0 ∷ 8 ∷ 0 ∷ [])
unfolding encode_frame
encoded = refl

read_frame-cut_example :
    (read_frame one_byte loads (record { bytes = 0 ∷ 0 ∷ 0 ∷ 3 ∷ 0 ∷ 8 ∷ []; calls = 7 })).0
    ≡ closed
read_frame-cut_example =
    read_frame-cut one_byte dumps loads 8 (0 ∷ 0 ∷ 0 ∷ 3 ∷ 0 ∷ 8 ∷ []) [] 0 7 encoded
