-- ===== src/Backend/Ends.antt =====
-- The rounds of the scan, counted by the entries that are left.
use sqlery.Prelude.{
  ℕ, zero, suc, ◌<◌, ◌≡◌, Bool, false, Option, none, some, List, String, arith, refl, length, true,
  sym, subst, [], ◌∷◌,
}
use sqlery.Backend.{ReadyEntry, Db, Claimer}
use sqlery.Backend.Entries.{Continues, turn-Continues}
use sqlery.Backend.Rounds.{
  Turn, claims, skips, blocks, fails, raises, turn, scan, claim_from_ready, Scan, out_of_fuel,
  raised_in, ends, Seen, add_blocked, add_failed,
}
use sqlery.Backend.Scan.{Cursor, cursor_of, Limits, is_eligible, next_entry}
use sqlery.Backend.Scanned.{remaining, remaining-less, next_entry-IsNext}
use sqlery.Backend.Trace
use sqlery.Backend.Trace.{Reach, step, scans}
use sqlery.Backend.Turned.{after_turn}

-- The scan ended, with a claim, without one, or by an exception.
abbrev pub is_ended : Scan → Bool
is_ended out_of_fuel = false
is_ended (raised_in seen db) = true
is_ended (ends handle seen db) = true

-- The tables that the scan left are reached by transactions.
abbrev pub ReachedBy : Db → Scan → Type 0
ReachedBy s out_of_fuel = Unit
ReachedBy s (raised_in seen t) = Reach s t
ReachedBy s (ends handle seen t) = Reach s t

pub Reach-append : {s t u : Db} → Reach s t → Reach t u → Reach s u
Reach-append p Trace.start = p
Reach-append p (step q x) = step (Reach-append p q) x

ReachedBy-step : {s t : Db} (out : Scan) → Reach s t → ReachedBy t out → ReachedBy s out
ReachedBy-step out_of_fuel p q = tt
ReachedBy-step (raised_in seen u) p q = Reach-append p q
ReachedBy-step (ends handle seen u) p q = Reach-append p q

remaining-none : (es : List ReadyEntry) → remaining none es ≡ length es
remaining-none [] = refl
remaining-none (e ∷ es) = omega (arith, remaining-none es)

module _ (c : Claimer) (limits : Limits) (queues : List String) (locked : ℕ → Bool) where
  abbrev resume : (fuel : ℕ) → ReadyEntry → Seen → Db → Turn → Scan
  resume fuel e seen db (claims handle t) = ends (some handle) seen t
  resume fuel e seen db raises = raised_in seen db
  resume fuel e seen db (skips t) = scan c limits queues locked fuel (some (cursor_of e)) seen t
  resume fuel e seen db (blocks t) =
      scan c limits queues locked fuel (some (cursor_of e)) (add_blocked e seen) t
  resume fuel e seen db (fails t) =
      scan c limits queues locked fuel (some (cursor_of e)) (add_failed e seen) t

  abbrev examine : (fuel : ℕ) → Seen → Db → Option ReadyEntry → Scan
  examine fuel seen db none = ends none seen db
  examine fuel seen db (some e) = resume fuel e seen db (turn c limits e db)

  scan_step :
      (fuel : ℕ) (after : Option Cursor) (seen : Seen) (db : Db)
      → scan c limits queues locked (suc fuel) after seen db
        ≡ examine fuel seen db (next_entry (is_eligible queues c.now locked after) db.ready)
  unfolding scan
  scan_step fuel after seen db = refl

  resume-is_ended :
      (fuel : ℕ) (e : ReadyEntry) (seen : Seen) (db : Db) (out : Turn)
      → Continues db out
      → remaining (some (cursor_of e)) db.ready < fuel
      → ((seen' : Seen) (t : Db)
          → remaining (some (cursor_of e)) t.ready < fuel
          → is_ended (scan c limits queues locked fuel (some (cursor_of e)) seen' t) ≡ true)
      → is_ended (resume fuel e seen db out) ≡ true
  resume-is_ended fuel e seen db (claims handle t) less enough rest = refl
  resume-is_ended fuel e seen db raises less enough rest = refl
  resume-is_ended fuel e seen db (skips t) less enough rest =
      rest seen t (omega (arith, less (some (cursor_of e))))
  resume-is_ended fuel e seen db (blocks t) less enough rest =
      rest (add_blocked e seen) t (omega (arith, less (some (cursor_of e))))
  resume-is_ended fuel e seen db (fails t) less enough rest =
      rest (add_failed e seen) t (omega (arith, less (some (cursor_of e))))

  examine-is_ended :
      (fuel : ℕ) (after : Option Cursor) (seen : Seen) (db : Db) (next : Option ReadyEntry)
      → next_entry (is_eligible queues c.now locked after) db.ready ≡ next
      → remaining after db.ready < suc fuel
      → ((e : ReadyEntry) (seen' : Seen) (t : Db)
          → remaining (some (cursor_of e)) t.ready < fuel
          → is_ended (scan c limits queues locked fuel (some (cursor_of e)) seen' t) ≡ true)
      → is_ended (examine fuel seen db next) ≡ true
  examine-is_ended fuel after seen db none h enough rest = refl
  examine-is_ended fuel after seen db (some e) h enough rest =
      let eligible : ReadyEntry → Bool = is_eligible queues c.now locked after in
      let less =
        remaining-less eligible after e db.ready (λ x p. ground arith)
          (next_entry-IsNext eligible db.ready e h) in
      resume-is_ended fuel e seen db (turn c limits e db) (turn-Continues c limits e db)
        (omega (arith, less.1)) (rest e)

  scan-is_ended :
      (fuel : ℕ) (after : Option Cursor) (seen : Seen) (db : Db)
      → remaining after db.ready < fuel
      → is_ended (scan c limits queues locked fuel after seen db) ≡ true
  scan-is_ended zero after seen db enough = absurd (omega arith)
  scan-is_ended (suc fuel) after seen db enough = rw (scan_step fuel after seen db) (
      examine-is_ended fuel after seen db _ refl enough
        (λ e seen' t less. scan-is_ended fuel (some (cursor_of e)) seen' t less))

  resume-ReachedBy :
      (fuel : ℕ) (e : ReadyEntry) (seen : Seen) (db : Db) (out : Turn)
      → Reach db (after_turn db out)
      → ((seen' : Seen) (t : Db)
          → ReachedBy t (scan c limits queues locked fuel (some (cursor_of e)) seen' t))
      → ReachedBy db (resume fuel e seen db out)
  resume-ReachedBy fuel e seen db (claims handle t) p rest = p
  resume-ReachedBy fuel e seen db raises p rest = p
  resume-ReachedBy fuel e seen db (skips t) p rest = ReachedBy-step _ p (rest seen t)
  resume-ReachedBy fuel e seen db (blocks t) p rest =
      ReachedBy-step _ p (rest (add_blocked e seen) t)
  resume-ReachedBy fuel e seen db (fails t) p rest = ReachedBy-step _ p (rest (add_failed e seen) t)

  examine-ReachedBy :
      (fuel : ℕ) (seen : Seen) (db : Db) (next : Option ReadyEntry)
      → ((after : Option Cursor) (seen' : Seen) (t : Db)
          → ReachedBy t (scan c limits queues locked fuel after seen' t))
      → ReachedBy db (examine fuel seen db next)
  examine-ReachedBy fuel seen db none rest = Trace.start
  examine-ReachedBy fuel seen db (some e) rest =
      resume-ReachedBy fuel e seen db (turn c limits e db) (step Trace.start (scans c limits e))
        (rest (some (cursor_of e)))

  scan_empty :
      (after : Option Cursor) (seen : Seen) (db : Db)
      → scan c limits queues locked zero after seen db ≡ out_of_fuel
  unfolding scan
  scan_empty after seen db = refl

  scan-ReachedBy :
      (fuel : ℕ) (after : Option Cursor) (seen : Seen) (db : Db)
      → ReachedBy db (scan c limits queues locked fuel after seen db)
  scan-ReachedBy zero after seen db = rw (scan_empty after seen db) tt
  scan-ReachedBy (suc fuel) after seen db =
      subst (ReachedBy db) (sym (scan_step fuel after seen db)) (
        examine-ReachedBy fuel seen db (next_entry (is_eligible queues c.now locked after) db.ready)
          (λ after' seen' t. scan-ReachedBy fuel after' seen' t))

  -- With more fuel than there are ready entries the scan ends: by a claim, at the end of the entries
  -- or by an exception. What it leaves is reached by transactions, one per candidate.
  pub claim_from_ready-is_ended :
      (fuel : ℕ) (db : Db)
      → length db.ready < fuel
      → (is_ended (claim_from_ready c limits queues locked fuel db) ≡ true)
        × ReachedBy db (claim_from_ready c limits queues locked fuel db)
  unfolding claim_from_ready
  claim_from_ready-is_ended fuel db enough = (
    scan-is_ended fuel none _ db (omega (arith, remaining-none db.ready)),
    scan-ReachedBy fuel none _ db,
  )
