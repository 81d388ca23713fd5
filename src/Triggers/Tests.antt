-- ===== src/Triggers/Tests.antt =====
-- A receiver with toy library functions: the signature is the secret before the message, and a
-- timestamp is its first code point.
use sqlery.Prelude.{
  ◌≡◌, ◌≢◌, false, Option, none, some, [], ◌∷◌, ◌++◌, Text, codes, arith, refl, ◌↔◌, text_eq,
}
use sqlery.Triggers.{
  Stamp, nonneg, Crypto, Settings, Envelope, is_ip_allowed, verify_signature, handle, dispatch,
  Action, process_queue, duplicate, invalid_signature, action_of,
}
use sqlery.Triggers.Accepts.{IsAccepted, handle-IsAccepted}
use sqlery.Triggers.Cache.{idempotency_seen, has_key, trim}
use sqlery.Triggers.Replay.{receive, dispatched_in, handle-once}

abbrev first_code : Text → Option Stamp
first_code [] = none
first_code (c ∷ cs) = some (nonneg c)

abbrev lib : Crypto
lib = record {
  mac = λ secret message. secret ++ message;
  digest = λ body. body;
  int_of = first_code;
  address = λ addr. some 1;
}

abbrev set : Settings
set = record {
  secret = some (codes "key");
  require_body_signature = false;
  max_age = 5;
  allowed_ips = some (codes "127.0.0.1" ∷ []);
}

-- Signed at second 50.
abbrev request : Envelope
request = record {
  body = 1 ∷ [];
  signature = codes "key2";
  timestamp = codes "2";
  version = [];
  remote_addr = some (codes "127.0.0.1");
  action = none;
}

first_answer : (handle lib set 51000000 51000000 request []).0 ≡ dispatch process_queue
unfolding handle is_ip_allowed verify_signature idempotency_seen has_key text_eq action_of
first_answer = refl

second_answer :
    (handle lib set 52000000 52000000 request (handle lib set 51000000 51000000 request []).1).0
    ≡ duplicate
unfolding handle is_ip_allowed verify_signature idempotency_seen has_key text_eq action_of trim
second_answer = refl

late_answer : (handle lib set 56000000 56000000 request []).0 ≡ invalid_signature
unfolding handle is_ip_allowed verify_signature text_eq
late_answer = refl

handle-IsAccepted_example :
    ((a : Action) × ((handle lib set 51000000 51000000 request []).0 ≡ dispatch a))
    ↔ ((s : Text) × IsAccepted lib set 51000000 51000000 request [] s)
handle-IsAccepted_example = handle-IsAccepted lib set 51000000 51000000 request []

handle-once_example :
    (handle lib set 54000000 54000000 request (
      receive lib set
        ((53000000, 53000000, request) ∷ [])
        (handle lib set 51000000 51000000 request []).1)).0
    ≢ dispatch process_queue
unfolding dispatched_in handle is_ip_allowed verify_signature idempotency_seen has_key text_eq
    action_of trim
handle-once_example =
    handle-once lib set 51000000 51000000 1000000 request [] process_queue (omega arith)
      (omega arith) refl ((53000000, 53000000, request) ∷ []) (omega arith, tt) (omega arith)
      54000000 54000000 (omega arith) (omega arith) request refl refl process_queue
