-- ===== src/Leases/System.antt =====
-- Daemons that claim, renew and release the leases of their queues, as a step relation: the
-- SELECT and the write of a claim without the row lock are two steps, and the clock may move
-- between any two steps.
use sqlery.Prelude.{ℕ, ◌+◌, ◌≤◌, ◌≡◌, ◌≢◌, Option, List, ◌∷◌, ◌++◌}
use sqlery.Leases.{Table, Lease, claim_locked, claim_seen, renew_queue_leases, release_queue_leases}

-- A claim between its SELECT and its write: `now` is read before the SELECT.
pub record Pending : Type 0 where
  pub queue : ℕ
  pub daemon : ℕ
  pub now : ℕ
  pub seen : Option Lease

pub record System : Type 0 where
  pub leases : Table
  pub clock : ℕ
  pub pending : List Pending

module _ (secs : ℕ) where
  -- One step, labelled by the daemon that takes it.
  pub data Step (s : System) : ℕ → System → Type 0 where
    waits : (d n : ℕ) → Step s d (record s { clock = s.clock + n })
    claims : (q d : ℕ) → Step s d (record s { leases = (claim_locked q d s.clock secs s.leases).0 })
    reads :
        (q d : ℕ)
        → Step s d (record s {
          pending = record { queue = q; daemon = d; now = s.clock; seen = s.leases q } ∷ s.pending;
        })
    writes :
        (before after : List Pending) (p : Pending) (d : ℕ)
        → s.pending ≡ before ++ p ∷ after
        → p.daemon ≡ d
        → Step s d (record s {
          leases = (claim_seen p.queue p.daemon p.now secs p.seen s.leases).0;
          pending = before ++ after;
        })
    renews :
        (d : ℕ) (owned : List ℕ)
        → Step s d (record s { leases = renew_queue_leases owned d secs s.clock s.leases })
    releases :
        (d : ℕ) (owned : List ℕ)
        → Step s d (record s { leases = release_queue_leases owned d s.leases })

  -- Steps of daemons other than `d`, and renewals by `d`; the clock at the end of each is at
  -- most `e`.
  pub data While (d e : ℕ) (s : System) : System → Type 0 where
    start : While d e s s
    step :
        {t u : System} (other : ℕ)
        → While d e s t
        → Step t other u
        → other ≢ d
        → u.clock ≤ e
        → While d e s u
    renewal :
        {t : System} (owned : List ℕ)
        → While d e s t
        → While d e s (record t { leases = renew_queue_leases owned d secs t.clock t.leases })
