-- ===== src/Leases/Exclusive.antt =====
-- The holder of a lease, through the steps of every daemon.
use sqlery.Prelude.{
  ◌∙◌, sym, ℕ, ◌+◌, ◌≤◌, ◌≡◌, ◌≢◌, true, false, Option, none, some, List, All, arith, refl,
  Bool-cases, inl, inr, mem, subst,
}
use sqlery.Leases.{
  Table, Lease, fresh, claim_locked, renew_queue_leases, release_queue_leases, locked_row,
  insert_lease,
}
use sqlery.Leases.Held.{
  IsHeld, IsHarmless, All-delete, IsHeld-IsForeign, claim_locked-IsHeld, claim_seen-keeps,
  renewed-IsHeld, released-IsHeld, locked_row-IsHeld,
}
use sqlery.Leases.System.{
  System, Step, While, waits, claims, reads, writes, renews, releases, start, step, renewal,
}

-- Held by `d` until `e`, with no harmful claim in flight, and renewals that do not shorten it.
record IsKept (q d e secs : ℕ) (s : System) : Type 0 where
  row : IsHeld d e (s.leases q)
  flight : All (IsHarmless q d e) s.pending
  later : e ≤ s.clock + secs
  due : s.clock ≤ e

module _ (q d e secs : ℕ) where
  renew_queue_leases-IsHeld :
      (owned : List ℕ) (other now : ℕ) (t : Table)
      → (other ≡ d → e ≤ now + secs)
      → IsHeld d e (t q)
      → IsHeld d e (renew_queue_leases owned other secs now t q)
  unfolding renew_queue_leases
  renew_queue_leases-IsHeld owned other now t h held = elim (Bool-cases (mem q owned)) [
    | inl y ↦ rw y (renewed-IsHeld d e other (now + secs) (t q) h held)
    | inr n ↦ rw n held
  ]

  release_queue_leases-IsHeld :
      (owned : List ℕ) (other : ℕ) (t : Table)
      → other ≢ d
      → IsHeld d e (t q)
      → IsHeld d e (release_queue_leases owned other t q)
  unfolding release_queue_leases
  release_queue_leases-IsHeld owned other t ne held = elim (Bool-cases (mem q owned)) [
    | inl y ↦ rw y (rw (released-IsHeld d e other (t q) ne held) held)
    | inr n ↦ rw n held
  ]

  Step-IsKept :
      {s : System} {other : ℕ} {t : System}
      → IsKept q d e secs s
      → Step secs s other t
      → other ≢ d
      → t.clock ≤ e
      → IsKept q d e secs t
  Step-IsKept k (waits other n) ne le = record {
    row = k.row;
    flight = k.flight;
    later = omega (arith, k.later);
    due = le;
  }
  Step-IsKept {s} k (claims r other) ne le = record {
    row = claim_locked-IsHeld q d e secs r other s.clock s.leases le ne k.row;
    flight = k.flight;
    later = k.later;
    due = le;
  }
  Step-IsKept {s} k (reads r other) ne le = record {
    row = k.row;
    flight = (
      (λ same differs. (
        le,
        IsHeld-IsForeign d e other (s.leases r) ne
            (subst (λ j. IsHeld d e (s.leases j)) (sym same) k.row),
      )),
      k.flight,
    );
    later = k.later;
    due = le;
  }
  Step-IsKept {s} k (writes before after p other at mine) ne le =
      let all =
        All-delete (IsHarmless q d e) before after p (subst (All (IsHarmless q d e)) at k.flight) in
      record {
        row = claim_seen-keeps q d e secs p s.leases (λ same. ne (sym mine ∙ same)) all.0 k.row;
        flight = all.1;
        later = k.later;
        due = le;
      }
  Step-IsKept {s} k (renews other owned) ne le = record {
    row = renew_queue_leases-IsHeld owned other s.clock s.leases (λ same. absurd (ne same)) k.row;
    flight = k.flight;
    later = k.later;
    due = le;
  }
  Step-IsKept {s} k (releases other owned) ne le = record {
    row = release_queue_leases-IsHeld owned other s.leases ne k.row;
    flight = k.flight;
    later = k.later;
    due = le;
  }

  While-IsKept : {s t : System} → IsKept q d e secs s → While secs d e s t → IsKept q d e secs t
  While-IsKept k start = k
  While-IsKept k (step other r x ne le) = Step-IsKept (While-IsKept k r) x ne le
  While-IsKept k (renewal {t} owned r) =
      let k' = While-IsKept k r in
      record {
        row = renew_queue_leases-IsHeld owned d t.clock t.leases (λ same. k'.later) k'.row;
        flight = k'.flight;
        later = k'.later;
        due = k'.due;
      }

insert_lease-won :
    (q d e : ℕ) (t : Table) (row : Option Lease)
    → t q ≡ row
    → (insert_lease q (fresh d e) t).1 ≡ true
    → IsHeld d e ((insert_lease q (fresh d e) t).0 q)
unfolding insert_lease
insert_lease-won q d e t none eq won = rw (eq, insert_lease) (ground arith)
insert_lease-won q d e t (some row) eq won =
    let lost : false ≡ true = rw (eq, insert_lease) at won in cc

-- A claim that returns True leaves the lease with the daemon.
locked_row-won :
    (q d now secs : ℕ) (row : Option Lease) (t : Table)
    → (locked_row q d now secs row t).1 ≡ true
    → IsHeld d (now + secs) ((locked_row q d now secs row t).0 q)
unfolding locked_row
locked_row-won q d now secs none t won = insert_lease-won q d (now + secs) t (t q) refl won
locked_row-won q d now secs (some row) t won = ground arith

-- A daemon's claim returned True, and no claim of another daemon on the queue is in flight that saw
-- that daemon's own lease or is dated later than the new lease's end. Until that end, while other
-- daemons claim (with the row lock, or by a SELECT and a later compare-and-swap), renew and release
-- in any order and the holder renews, the lease stays with the holder and does not end earlier, and
-- every other daemon's claim with the row lock returns False and changes nothing.
pub claim_locked-IsHeld-While :
    (q d secs : ℕ) (s u : System)
    → (claim_locked q d s.clock secs s.leases).1 ≡ true
    → All (IsHarmless q d (s.clock + secs)) s.pending
    → While secs d
        (s.clock + secs)
        (record s { leases = (claim_locked q d s.clock secs s.leases).0 })
        u
    → IsHeld d (s.clock + secs) (u.leases q)
      × ((other : ℕ) → other ≢ d → claim_locked q other u.clock secs u.leases ≡ (u.leases, false))
unfolding claim_locked
claim_locked-IsHeld-While q d secs s u won harmless run =
    let kept =
      While-IsKept q d (s.clock + secs) secs
        (record {
          row = locked_row-won q d s.clock secs (s.leases q) s.leases won;
          flight = harmless;
          later = omega arith;
          due = omega arith;
        })
        run in
    (
      kept.row,
      λ other ne.
          locked_row-IsHeld d (s.clock + secs) q other u.clock secs (u.leases q) u.leases kept.due
            ne kept.row,
    )
