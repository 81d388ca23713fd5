-- ===== src/Leases/Cas.antt =====
-- The two strategies of _claim_one_lease beside each other.
use sqlery.Prelude.{ℕ, ◌≡◌, Option, none, some, arith, refl}
use sqlery.Leases.{Table, Lease, claim_locked, claim_seen, locked_row, insert_lease, cas_update}

locked_row-claim_seen :
    (q daemon now secs : ℕ) (t : Table) (row : Option Lease)
    → t q ≡ row
    → claim_seen q daemon now secs row t ≡ locked_row q daemon now secs row t
unfolding claim_seen locked_row insert_lease cas_update
locked_row-claim_seen q daemon now secs t none e = refl
locked_row-claim_seen q daemon now secs t (some r) e = rw (e, cas_update) (ground arith)

-- With no other statement between its SELECT and its write, a claim without the row lock returns
-- what a claim with the row lock returns, and leaves the same table.
pub claim_seen-claim_locked :
    (q daemon now secs : ℕ) (t : Table)
    → claim_seen q daemon now secs (t q) t ≡ claim_locked q daemon now secs t
unfolding claim_locked
claim_seen-claim_locked q daemon now secs t = locked_row-claim_seen q daemon now secs t (t q) refl
