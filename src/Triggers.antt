-- ===== src/Triggers.antt =====
-- The receiver of HTTP triggers: src/sqlery/core/triggers.py with src/sqlery/core/signature.py. This file
-- has the signature and what comes before the dispatch; Triggers/Dispatch the two actions.
--
-- The clock is read in microseconds. Texts are lists of code points, bodies lists of bytes. HMAC with
-- its base 64, the hexadecimal digest of SHA-256, int() of a text and the addresses of ipaddress are
-- parameters; the header names that the source looks up in two spellings are one field here.
pub mod Cache
mod Holds
pub mod Replay
pub mod Accepts
pub mod Dispatch
mod Tests
use sqlery.Prelude.{
  ℕ, ◌+◌, ◌-◌, ◌*◌, Bool, true, false, not, ◌&&◌, ◌||◌, Option, none, some, List, [], ◌∷◌, ◌++◌,
  Text, text_eq, codes, ltb, ◌==◌, if◌then◌else◌, is_empty,
}
use sqlery.Triggers.Cache.{Seen, Key, idempotency_seen}

-- What int() returns: a number, or the negative of one.
pub data Stamp : Type 0 where
  nonneg : ℕ → Stamp
  negative : ℕ → Stamp

-- The library functions.
pub record Crypto : Type 0 where
  pub mac : (secret message : Text) → Text
  pub digest : List ℕ → Text
  pub int_of : Text → Option Stamp
  pub address : Text → Option ℕ

-- The settings, as `_resolve_secret`, `_require_body_signature`, `_resolve_max_age` and
-- `_resolve_allowed_ips` read them.
pub record Settings : Type 0 where
  pub secret : Option Text
  pub require_body_signature : Bool
  -- In seconds.
  pub max_age : ℕ
  pub allowed_ips : Option (List Text)

-- A header that is absent is empty, as the source treats it.
pub record Envelope : Type 0 where
  pub body : List ℕ
  pub signature : Text
  pub timestamp : Text
  pub version : Text
  pub remote_addr : Option Text
  pub action : Option Text

-- `_message`
abbrev pub message : Crypto → (timestamp : Text) → Option (List ℕ) → Text
message lib timestamp none = timestamp
message lib timestamp (some body) = timestamp ++ codes "." ++ lib.digest body

-- `abs(time.time() - timestamp)`
abbrev pub age : (now : ℕ) → Stamp → ℕ
age now (nonneg t) = (now - 1000000 * t) + (1000000 * t - now)
age now (negative t) = now + 1000000 * t

abbrev pub is_fresh : (now max_age : ℕ) → Option Stamp → Bool
is_fresh now max_age none = false
is_fresh now max_age (some t) = not (ltb (1000000 * max_age) (age now t))

-- `verify_signature`
unfoldable pub verify_signature :
    Crypto → (signature timestamp secret : Text) → (now max_age : ℕ) → Option (List ℕ) → Bool
verify_signature lib signature timestamp secret now max_age body =
    is_fresh now max_age (lib.int_of timestamp)
    && text_eq (lib.mac secret (message lib timestamp body)) signature

-- `generate_signature` of a time that str() has printed.
unfoldable pub generate_signature : Crypto → (secret timestamp : Text) → Option (List ℕ) → Text
generate_signature lib secret timestamp body = lib.mac secret (message lib timestamp body)

abbrev pub is_member : Text → List Text → Bool
is_member t [] = false
is_member t (x ∷ xs) = text_eq x t || is_member t xs

abbrev pub same_address : Option ℕ → ℕ → Bool
same_address none source = false
same_address (some a) source = a == source

abbrev pub is_listed : Crypto → (source : ℕ) → List Text → Bool
is_listed lib source [] = false
is_listed lib source (entry ∷ entries) =
    same_address (lib.address entry) source || is_listed lib source entries

abbrev pub is_source_listed : Crypto → Option ℕ → List Text → Bool
is_source_listed lib none entries = false
is_source_listed lib (some source) entries = is_listed lib source entries

-- `is_ip_allowed`
unfoldable pub is_ip_allowed : Crypto → Option (List Text) → (remote_addr : Option Text) → Bool
is_ip_allowed lib none remote_addr = true
is_ip_allowed lib (some allowed) remote_addr = is_member (codes "*") allowed || elim remote_addr [
  | none ↦ false
  | some addr ↦ not (is_empty addr) && is_source_listed lib (lib.address addr) allowed
]

pub data Action : Type 0 where
  process_queue process_scheduled unknown : Action

-- The response of `handle`, or the action that it dispatches.
pub data Answer : Type 0 where
  forbidden missing_signature misconfigured body_signature_required invalid_signature duplicate :
      Answer
  dispatch : Action → Answer

abbrev pub status_code : Answer → ℕ
status_code forbidden = 403
status_code missing_signature = 401
status_code misconfigured = 500
status_code body_signature_required = 401
status_code invalid_signature = 401
status_code duplicate = 409
status_code (dispatch _) = 200

unfoldable pub action_of : Option Text → Action
action_of none = process_queue
action_of (some name) =
    if text_eq name (codes "process_queue")
    then process_queue
    else if text_eq name (codes "process_scheduled")
    then process_scheduled
    else unknown

module _ (lib : Crypto) (set : Settings) where
  -- Whether the signature is valid, and the response to one that is not.
  abbrev pub is_body_bound : Envelope → Bool
  is_body_bound e = text_eq e.version (codes "2")

  abbrev pub is_valid : (secret : Text) → (now : ℕ) → Envelope → Bool
  is_valid secret now e =
      if is_body_bound e
      then verify_signature lib e.signature e.timestamp secret now set.max_age (some e.body)
      else verify_signature lib e.signature e.timestamp secret now set.max_age none

  abbrev pub key_of : Envelope → Key
  key_of e = (e.timestamp, e.signature)

  abbrev pub settle : Envelope → Bool × Seen → Answer × Seen
  settle e (true, cache) = (duplicate, cache)
  settle e (false, cache) = (dispatch (action_of e.action), cache)

  abbrev pub with_secret : (now seen_at : ℕ) → Envelope → Option Text → Seen → Answer × Seen
  with_secret now seen_at e none cache = (misconfigured, cache)
  with_secret now seen_at e (some secret) cache =
      if is_empty secret
      then (misconfigured, cache)
      else if not (is_body_bound e) && set.require_body_signature
      then (body_signature_required, cache)
      else if not (is_valid secret now e)
      then (invalid_signature, cache)
      else settle e (idempotency_seen seen_at (key_of e) cache)

  -- `handle`, up to the dispatch. It reads the clock twice: for the age of the signature, and for that of
  -- the cache's entries.
  unfoldable pub handle : (now seen_at : ℕ) → Envelope → Seen → Answer × Seen
  handle now seen_at e cache =
      if not (is_ip_allowed lib set.allowed_ips e.remote_addr)
      then (forbidden, cache)
      else if is_empty e.signature || is_empty e.timestamp
      then (missing_signature, cache)
      else with_secret now seen_at e set.secret cache
