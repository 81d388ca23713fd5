-- ===== src/Leases.antt =====
-- Scheduler leases: claim_queue_leases, _claim_one_lease, renew_queue_leases and
-- release_queue_leases of src/sqlery/fastapi_sqlery/backend.py.
--
-- The lease table has one row for a queue name at most (its primary key), so it is a function.
-- node_id, pid and acquired_at are written and never read here, and are left out.
pub mod Cas
pub mod System
pub mod Held
pub mod Exclusive
mod Tests
use sqlery.Prelude.{
  ℕ, ◌+◌, Bool, true, false, Option, none, some, List, [], ◌∷◌, ltb, ◌==◌, ◌||◌, ◌&&◌,
  if◌then◌else◌, mem,
}

pub record Lease : Type 0 where
  pub daemon_id : ℕ
  pub expires_at : ℕ
  pub version : ℕ

abbrev pub Table : Type 0
Table = ℕ → Option Lease

-- The table with row `q` replaced.
abbrev pub put : ℕ → Option Lease → Table → Table
put q row t k = if k == q then row else t k

-- The row that an INSERT of a new lease stores.
abbrev pub fresh : ℕ → ℕ → Lease
fresh daemon expires = record { daemon_id = daemon; expires_at = expires; version = 0 }

-- The row that a take-over stores over a row of the given version.
abbrev pub taken : ℕ → ℕ → ℕ → Lease
taken daemon expires version = record {
  daemon_id = daemon;
  expires_at = expires;
  version = version + 1;
}

-- `session.add(lease); session.commit()`, an IntegrityError being answered with False.
unfoldable pub insert_lease : ℕ → Lease → Table → Table × Bool
insert_lease q lease t = elim (t q) [ none ↦ (put q (some lease) t, true) | some _ ↦ (t, false) ]

-- The branch of the blocking row lock, on the row that the lock shows.
unfoldable pub locked_row : ℕ → ℕ → ℕ → ℕ → Option Lease → Table → Table × Bool
locked_row q daemon now secs none t = insert_lease q (fresh daemon (now + secs)) t
locked_row q daemon now secs (some existing) t =
    if ltb existing.expires_at now || existing.daemon_id == daemon
    then (put q (some (taken daemon (now + secs) existing.version)) t, true)
    else (t, false)

-- `_claim_one_lease` with the strategy "skip_locked".
unfoldable pub claim_locked : ℕ → ℕ → ℕ → ℕ → Table → Table × Bool
unfolding locked_row
claim_locked q daemon now secs t = locked_row q daemon now secs (t q) t

-- `UPDATE … WHERE queue_name = q AND version = v [AND expires_at < now]`, and `rowcount == 1`.
abbrev pub is_before : Option ℕ → ℕ → Bool
is_before none expires = true
is_before (some now) expires = ltb expires now

unfoldable pub cas_update : ℕ → ℕ → Option ℕ → Lease → Table → Table × Bool
cas_update q version before new t = elim (t q) [
  | none ↦ (t, false)
  | some row ↦
      if row.version == version && is_before before row.expires_at
      then (put q (some new) t, true)
      else (t, false)
]

-- The write that `_claim_one_lease` makes without a row lock, after its SELECT showed `seen`.
unfoldable pub claim_seen : ℕ → ℕ → ℕ → ℕ → Option Lease → Table → Table × Bool
unfolding insert_lease cas_update
claim_seen q daemon now secs none t = insert_lease q (fresh daemon (now + secs)) t
claim_seen q daemon now secs (some existing) t =
    if existing.daemon_id == daemon
    then cas_update q existing.version none (taken daemon (now + secs) existing.version) t
    else if ltb existing.expires_at now
    then cas_update q existing.version (some now) (taken daemon (now + secs) existing.version) t
    else (t, false)

-- The row's expiry is moved if the lease is the daemon's.
unfoldable pub renewed : ℕ → ℕ → Option Lease → Option Lease
renewed daemon expires none = none
renewed daemon expires (some row) =
    some (if row.daemon_id == daemon then record row { expires_at = expires } else row)

-- `renew_queue_leases`
unfoldable pub renew_queue_leases : List ℕ → ℕ → ℕ → ℕ → Table → Table
unfolding renewed
renew_queue_leases owned daemon secs now t q =
    if mem q owned then renewed daemon (now + secs) (t q) else t q

-- The row is deleted if the lease is the daemon's.
unfoldable pub released : ℕ → Option Lease → Option Lease
released daemon none = none
released daemon (some row) = if row.daemon_id == daemon then none else some row

-- `release_queue_leases`
unfoldable pub release_queue_leases : List ℕ → ℕ → Table → Table
unfolding released
release_queue_leases owned daemon t q = if mem q owned then released daemon (t q) else t q

-- `claim_queue_leases` with the row lock: the queues are claimed one after the other, each at its
-- own time, and the claimed ones are returned.
unfoldable pub claim_queue_leases : List (ℕ × ℕ) → ℕ → ℕ → Table → Table × List ℕ
unfolding claim_locked
claim_queue_leases [] daemon secs t = (t, [])
claim_queue_leases ((q, now) ∷ queues) daemon secs t =
    let (t', won) = claim_locked q daemon now secs t in
    let (t'', claimed) = claim_queue_leases queues daemon secs t' in
    (t'', if won then q ∷ claimed else claimed)
