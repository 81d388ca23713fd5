-- ===== src/Leases/Tests.antt =====
-- Leases at concrete tables: two daemons and a queue.
use sqlery.Prelude.{◌+◌, ℕ, ◌≡◌, ◌≢◌, true, false, none, some, [], ◌∷◌, arith, refl}
use sqlery.Leases.{
  renew_queue_leases, insert_lease, cas_update, locked_row, Table, fresh, claim_locked, claim_seen,
  claim_queue_leases, put,
}
use sqlery.Leases.Cas.{claim_seen-claim_locked}
use sqlery.Leases.Exclusive.{claim_locked-IsHeld-While}
use sqlery.Leases.Held.{IsHeld}
use sqlery.Leases.System.{System, Pending, While, start, step, renewal, waits, reads, writes}

abbrev no_leases : Table
no_leases q = none

-- Daemon 1 holds queue 7 until 10, daemon 2 queue 8 until 100.
abbrev two_leases : Table
two_leases = put 7 (some (fresh 1 10)) (put 8 (some (fresh 2 100)) no_leases)

takes_expired :
    (claim_queue_leases ((7, 20) ∷ (8, 20) ∷ (9, 20) ∷ []) 3 30 two_leases).1 ≡ 7 ∷ 9 ∷ []
unfolding claim_queue_leases claim_locked locked_row insert_lease
takes_expired = refl

-- A claim that read its own lease before it was released and another daemon claimed the queue
-- takes the queue from that daemon: the version starts at 0 again.
stale_own_claim : (claim_seen 8 1 20 30 (some (fresh 1 15)) two_leases).1 ≡ true
unfolding claim_seen cas_update
stale_own_claim = refl

claim_seen-claim_locked_example :
    claim_seen 7 3 20 30 (two_leases 7) two_leases ≡ claim_locked 7 3 20 30 two_leases
claim_seen-claim_locked_example = claim_seen-claim_locked 7 3 20 30 two_leases

abbrev before_claim : System
before_claim = record { leases = two_leases; clock = 20; pending = [] }

abbrev claimed : System
claimed = record before_claim { leases = (claim_locked 7 3 20 30 two_leases).0 }

-- Daemon 4 reads the lease of queue 7 at 20 and writes at 25; between them daemon 3 renews.
abbrev reading : Pending
reading = record { queue = 7; daemon = 4; now = 20; seen = claimed.leases 7 }

abbrev was_read : System
was_read = record claimed { pending = reading ∷ [] }

abbrev later : System
later = record was_read { clock = 20 + 5 }

abbrev kept : System
kept = record later { leases = renew_queue_leases (7 ∷ []) 3 30 25 later.leases }

abbrev written : System
written = record kept { leases = (claim_seen 7 4 20 30 reading.seen kept.leases).0; pending = [] }

run : While 30 3 50 claimed written
run =
    step 4
      (renewal (7 ∷ []) (
        step 4 (step 4 start (reads 7 4) (λ e. absurd (omega arith)) (omega arith)) (waits 4 5)
          (λ e. absurd (omega arith)) (omega arith)))
      (writes [] [] reading 4 refl refl) (λ e. absurd (omega arith)) (omega arith)

claim_locked-IsHeld-While_example :
    IsHeld 3 50 (written.leases 7)
    × ((other : ℕ)
        → other ≢ 3
        → claim_locked 7 other 25 30 written.leases ≡ (written.leases, false))
unfolding claim_locked locked_row
claim_locked-IsHeld-While_example =
    claim_locked-IsHeld-While 7 3 30 before_claim written refl tt run
