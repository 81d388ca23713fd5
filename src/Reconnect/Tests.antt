-- ===== src/Reconnect/Tests.antt =====
-- Errors whose causes form a cycle, and a database that comes back after two failures.
use sqlery.Prelude.{
  inl, ◌<◌, strip_prefix, ◌≡◌, ◌↔◌, ℕ, ◌+◌, suc, ltb, Bool, true, false, Option, none, some, List,
  [], ◌∷◌, Text, codes, arith, refl, if◌then◌else◌,
}
use sqlery.Reconnect.{
  Raised, chain_loop, is_connection_lost, means_lost, is_transient_error, search_in, match_at,
  within_line, Calls, returned, raised, retry_on_db_error, with_reconnect,
}
use sqlery.Reconnect.Lost.{HasLost, is_connection_lost-HasLost}
use sqlery.Reconnect.Tries.{
  pause_of, outcome_of, IsLastTry, IsEnd, IsTriedAgain, retry_on_db_error-IsLastTry,
  with_reconnect-ends, state_at,
}

abbrev error_of : Text → (cause context : Option ℕ) → Raised
error_of text cause context = record {
  connection_invalidated = false;
  is_interface_error = false;
  is_operational_error = false;
  sqlstate = none;
  message = text;
  cause = cause;
  context = context;
}

-- The first was raised from the second, while which the first was handled.
abbrev cycle : List Raised
cycle =
    error_of (codes "no such job") (some 1) none
    ∷ error_of (codes "row not found") none (some 0)
    ∷ error_of (codes "task failed") none (some 3)
    ∷ error_of (codes "Connection to server at db failed") none none
    ∷ []

cycle_answer : is_connection_lost cycle 5 (some 0) ≡ some false
unfolding chain_loop means_lost search_in match_at within_line strip_prefix
cycle_answer = refl

lost_answer : is_connection_lost cycle 5 (some 2) ≡ some true
unfolding chain_loop means_lost search_in match_at within_line strip_prefix
lost_answer = refl

is_connection_lost-HasLost_example :
    (b : Bool) × (is_connection_lost cycle 5 (some 2) ≡ some b)
    × ((b ≡ true) ↔ HasLost cycle (some 2))
is_connection_lost-HasLost_example = is_connection_lost-HasLost cycle 5 (some 2) (omega arith)

-- The state is the number of calls and the time that was slept.
abbrev database : Calls (ℕ × ℕ) Text ℕ
database = record {
  call =
      λ s. ((if ltb s.0 2 then raised (codes "DEADLOCK detected") else returned 7), (suc s.0, s.1));
  reset = λ s. s;
  sleep = λ t s. (s.0, s.1 + t);
}

third_try : retry_on_db_error database (λ e. true) (λ e. e) 3 100 (0, 0) ≡ (returned 7, (3, 300))
unfolding retry_on_db_error is_transient_error search_in strip_prefix
third_try = refl

second_error :
    retry_on_db_error database (λ e. true) (λ e. e) 1 100 (0, 0)
    ≡ (raised (codes "DEADLOCK detected"), (2, 100))
unfolding retry_on_db_error is_transient_error search_in strip_prefix
second_error = refl

retry_on_db_error-IsLastTry_example :
    (j : ℕ) × IsLastTry database (λ e. true) (λ e. e) 3 100 (0, 0) j
    × (retry_on_db_error database (λ e. true) (λ e. e) 3 100 (0, 0)
        ≡ outcome_of database (pause_of database (λ e. true) (λ e. e) 3 100 (0, 0)) j (0, 0))
retry_on_db_error-IsLastTry_example =
    retry_on_db_error-IsLastTry database (λ e. true) (λ e. e) 3 100 (0, 0)

with_reconnect-ends_example :
    (j : ℕ) × IsEnd database
      (λ e. true)
      (λ s. false)
      (λ k. 50)
      j
      (outcome_of database (λ k. 50) j (0, 0))
    × ((k : ℕ)
        → k < j
        → IsTriedAgain database
            (λ e. true)
            (λ s. false)
            (λ k. 50)
            k
            (outcome_of database (λ k. 50) k (0, 0)))
    × (with_reconnect database (λ e. true) (λ s. false) (λ k. 50) 4 0 (0, 0)
        ≡ some (outcome_of database (λ k. 50) j (0, 0)))
unfolding state_at
with_reconnect-ends_example =
    with_reconnect-ends database (λ e. true) (λ s. false) (λ k. 50) (0, 0) 2 4 (inl tt)
      (omega arith)
