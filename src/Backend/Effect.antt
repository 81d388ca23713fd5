-- ===== src/Backend/Effect.antt =====
-- Every transaction of the backend is made of six kinds of change to the jobs and the attempts.
use sqlery.Prelude.{ℕ, ◌+◌, ◌≤◌, ◌≡◌, Bool, [], ◌∷◌, ◌++◌}
use sqlery.Attempts.{Attempt, Outcome, update_where, closed, new_attempt}
use sqlery.Attempts.Close.{open_count}
use sqlery.Backend.{Job, Db, Claimer}
use sqlery.Backend.Places.{rows_of, places, IsMove}

-- The attempts of `t` are those of `s`, some of them closed.
pub record Closes (s t : Db) : Type 0 where
  pub test : Attempt → Bool
  pub now : ℕ
  pub outcome : Outcome
  pub attempts_closed : t.attempts ≡ update_where test (closed now outcome) s.attempts
  pub next_same : t.next_attempt ≡ s.next_attempt

pub data Effect (s t : Db) : Type 0 where
  -- Neither the jobs nor the attempts change.
  entries :
      t.live ≡ s.live
      → t.history ≡ s.history
      → t.attempts ≡ s.attempts
      → t.next_attempt ≡ s.next_attempt
      → Effect s t
  -- A claim inserts the attempt of a live job that has none open.
  start :
      (c : Claimer) (j : ℕ)
      → open_count j s.attempts ≡ 0
      → 1 ≤ rows_of j s.live
      → t.live ≡ s.live
      → t.history ≡ s.history
      → t.attempts
        ≡ s.attempts ++ new_attempt s.next_attempt j c.token c.worker_id c.worker_pid c.now ∷ []
      → t.next_attempt ≡ s.next_attempt + 1
      → Effect s t
  -- Attempts are closed.
  close : t.live ≡ s.live → t.history ≡ s.history → Closes s t → Effect s t
  -- One job moves to history.
  move : (j : ℕ) → IsMove j s t → Closes s t → Effect s t
  -- Live rows change, and keep their ids.
  mark :
      ((k : ℕ) → rows_of k t.live ≡ rows_of k s.live)
      → t.history ≡ s.history
      → t.attempts ≡ s.attempts
      → t.next_attempt ≡ s.next_attempt
      → Effect s t
  -- A new job enters the live table.
  add :
      (job : Job)
      → places job.id s ≡ 0
      → t.live ≡ s.live ++ job ∷ []
      → t.history ≡ s.history
      → t.attempts ≡ s.attempts
      → t.next_attempt ≡ s.next_attempt
      → Effect s t

pub data Effects (s : Db) : Db → Type 0 where
  done : Effects s s
  after : {t u : Db} → Effects s t → Effect t u → Effects s u

pub one : {s t : Db} → Effect s t → Effects s t
one e = after done e
