-- ===== src/Reconnect.antt =====
-- Reconnection: src/sqlery/core/db_resilience.py, and _with_reconnect of src/sqlery/core/worker.py.
--
-- Texts are lists of code points. Exceptions are objects in a list, each with the object it was raised
-- from, so that a chain may be a cycle. Times are in milliseconds. The database, the clock and the
-- flag for a shutdown are the state that a call changes.
mod Lost
mod Tries
mod Tests
use sqlery.Prelude.{
  ℕ, zero, suc, ◌+◌, ◌*◌, ◌^◌, min, Bool, true, false, not, ◌&&◌, ◌||◌, Option, none, some, List,
  [], ◌∷◌, Text, codes, text_eq, strip_prefix, ltb, leb, ◌==◌, if◌then◌else◌, get_elem?, mem,
}
use sqlery.Retry.{is_some}

-- The regular expressions of the source: literal texts, and `.*`, which does not pass a newline.
pub data Part : Type 0 where
  plain : Text → Part
  gap : Part

-- IGNORECASE: the ASCII letters, and the four other letters that it takes for one of them.
abbrev pub fold : ℕ → ℕ
fold c =
    if leb 65 c && leb c 90
    then c + 32
    else if (c == 304) || (c == 305)
    then 105
    else if c == 383
    then 115
    else if c == 8490
    then 107
    else c

abbrev pub fold_text : Text → Text
fold_text [] = []
fold_text (c ∷ s) = fold c ∷ fold_text s

unfoldable pub within_line : (Text → Bool) → Text → Bool
within_line test [] = test []
within_line test (c ∷ s) = test (c ∷ s) || (not (c == 10) && within_line test s)

unfoldable pub match_at : List Part → Text → Bool
match_at [] s = true
match_at (plain t ∷ parts) s = elim (strip_prefix (fold_text t) s) [
  | none ↦ false
  | some rest ↦ match_at parts rest
]
match_at (gap ∷ parts) s = within_line (λ rest. match_at parts rest) s

-- `pattern.search`, of a text that is folded.
unfoldable pub search_in : List Part → Text → Bool
unfolding match_at
search_in parts [] = match_at parts []
search_in parts (c ∷ s) = match_at parts (c ∷ s) || search_in parts s

abbrev pub any_pattern : List (List Part) → Text → Bool
any_pattern [] s = false
any_pattern (parts ∷ patterns) s = search_in parts s || any_pattern patterns s

abbrev pub transient_patterns : List (List Part)
transient_patterns =
    (plain (codes "database is locked") ∷ [])
    ∷ (plain (codes "disk I/O error") ∷ [])
    ∷ (plain (codes "server closed the connection") ∷ [])
    ∷ (plain (codes "connection already closed") ∷ [])
    ∷ (plain (codes "deadlock detected") ∷ [])
    ∷ (plain (codes "could not serialize access") ∷ [])
    ∷ (plain (codes "canceling statement due to statement timeout") ∷ [])
    ∷ (plain (codes "SSL connection has been closed unexpectedly") ∷ [])
    ∷ (plain (codes "could not connect to server") ∷ [])
    ∷ []

-- `_is_transient_error`, of the message.
unfoldable pub is_transient_error : Text → Bool
is_transient_error message = any_pattern transient_patterns (fold_text message)

abbrev pub connection_lost_patterns : List (List Part)
connection_lost_patterns =
    (plain (codes "server closed the connection") ∷ [])
    ∷ (plain (codes "connection already closed") ∷ [])
    ∷ (plain (codes "the connection is lost") ∷ [])
    ∷ (plain (codes "the connection is closed") ∷ [])
    ∷ (plain (codes "SSL connection has been closed unexpectedly") ∷ [])
    ∷ (plain (codes "could not connect to server") ∷ [])
    ∷ (plain (codes "connection to server ") ∷ gap ∷ plain (codes " failed") ∷ [])
    ∷ (plain (codes "connection refused") ∷ [])
    ∷ (plain (codes "terminating connection due to administrator command") ∷ [])
    ∷ (plain (codes "consuming input failed") ∷ [])
    ∷ (plain (codes "no connection to the server") ∷ [])
    ∷ (plain (codes "connection reset by peer") ∷ [])
    ∷ (plain (codes "broken pipe") ∷ [])
    ∷ []

-- An exception: what the source reads of it, and the numbers of its cause and its context.
pub record Raised : Type 0 where
  pub connection_invalidated : Bool
  -- Django's or psycopg's.
  pub is_interface_error : Bool
  -- psycopg's.
  pub is_operational_error : Bool
  pub sqlstate : Option Text
  pub message : Text
  pub cause : Option ℕ
  pub context : Option ℕ

abbrev pub is_lost_state : Option Text → Bool
is_lost_state none = true
is_lost_state (some state) =
    is_some (strip_prefix (codes "08") state)
    || text_eq state (codes "57P01")
    || text_eq state (codes "57P02")
    || text_eq state (codes "57P03")

-- The tests of one exception.
unfoldable pub means_lost : Raised → Bool
means_lost e =
    e.connection_invalidated
    || e.is_interface_error
    || (e.is_operational_error && is_lost_state e.sqlstate)
    || any_pattern connection_lost_patterns (fold_text e.message)

-- `exc.__cause__ or exc.__context__`
abbrev pub or_else : Option ℕ → Option ℕ → Option ℕ
or_else none j = j
or_else (some i) j = some i

abbrev pub next_of : Raised → Option ℕ
next_of e = or_else e.cause e.context

abbrev pub visit : (is_seen : Bool) → Option Raised → (go_on : Raised → Option Bool) → Option Bool
visit true found go_on = some false
visit false none go_on = some false
visit false (some e) go_on = if means_lost e then some true else go_on e

-- `is_connection_lost`; none is a loop that runs out of fuel.
unfoldable pub chain_loop : List Raised → (fuel : ℕ) → (seen : List ℕ) → Option ℕ → Option Bool
chain_loop heap zero seen exc = none
chain_loop heap (suc fuel) seen none = some false
chain_loop heap (suc fuel) seen (some i) =
    visit (mem i seen) (get_elem? heap i) (λ e. chain_loop heap fuel (i ∷ seen) (next_of e))

abbrev pub is_connection_lost : List Raised → (fuel : ℕ) → Option ℕ → Option Bool
is_connection_lost heap fuel exc = chain_loop heap fuel [] exc

-- `reconnect_delay`: `rng` gives a part of the ceiling.
unfoldable pub reconnect_delay : (rng : ℕ → ℕ) → (attempt base cap : ℕ) → ℕ
reconnect_delay rng attempt base cap = rng (min cap (base * 2 ^ min attempt 32))

-- What a call comes to. `raise None` is what is left of a loop without a round.
pub data Result {ℓ} (E A : Type ℓ) : Type ℓ where
  returned : A → Result E A
  raised : E → Result E A
  none_raised : Result E A

-- A function that is called, and the calls between two attempts.
pub record Calls {ℓ} (S E A : Type ℓ) : Type ℓ where
  pub call : S → Result E A × S
  -- `_reset_connections`, whose errors are swallowed, or `discard_connections`.
  pub reset : S → S
  pub sleep : ℕ → S → S

module _ {ℓ} {S E A : Type ℓ} (c : Calls S E A) where
  -- Between two attempts.
  abbrev pub pause : (delay : ℕ) → S → S
  pause delay s = c.sleep delay (c.reset s)

  module _ (is_retryable : E → Bool) (message : E → Text) (max_retries base : ℕ) where
    abbrev pub is_retried : Result E A → Bool
    is_retried (returned a) = false
    is_retried (raised e) = is_retryable e && is_transient_error (message e)
    is_retried none_raised = false

    abbrev pub after_try :
        (attempt : ℕ) → (again : Result E A → S → Result E A × S) → Result E A × S → Result E A × S
    after_try attempt again (r, s) =
        if is_retried r && not (leb max_retries attempt)
        then again r (pause (base * 2 ^ attempt) s)
        else (r, s)

    unfoldable pub retry_loop : (rounds attempt : ℕ) → (last_exc : Result E A) → S → Result E A × S
    retry_loop zero attempt last_exc s = (last_exc, s)
    retry_loop (suc rounds) attempt last_exc s =
        after_try attempt (λ r s'. retry_loop rounds (suc attempt) r s') (c.call s)

    -- `retry_on_db_error`
    unfoldable pub retry_on_db_error : S → Result E A × S
    unfolding retry_loop
    retry_on_db_error s = retry_loop (suc max_retries) 0 none_raised s

  module _ (is_lost : E → Bool) (shutdown_requested : S → Bool) (delay : ℕ → ℕ) where
    abbrev pub is_lost_result : Result E A → Bool
    is_lost_result (returned a) = false
    is_lost_result (raised e) = is_lost e
    is_lost_result none_raised = false

    -- Whether the round is the last; SHUTDOWN_RECONNECT_ATTEMPTS is 3.
    abbrev pub gives_up : (attempt : ℕ) → Result E A × S → Bool
    gives_up attempt (r, s) = not (is_lost_result r) || (shutdown_requested s && leb 3 attempt)

    abbrev pub after_round :
        (stop : Bool)
        → (again : S → Option (Result E A × S)) → (attempt : ℕ) → Result E A × S
        → Option (Result E A × S)
    after_round true again attempt out = some out
    after_round false again attempt (r, s) = again (pause (delay attempt) s)

    -- `_with_reconnect`: `while True` on fuel.
    unfoldable pub with_reconnect : (fuel attempt : ℕ) → S → Option (Result E A × S)
    with_reconnect zero attempt s = none
    with_reconnect (suc fuel) attempt s =
        after_round (gives_up attempt (c.call s)) (λ s'. with_reconnect fuel (suc attempt) s')
          attempt (c.call s)
