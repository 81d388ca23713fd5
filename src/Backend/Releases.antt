-- ===== src/Backend/Releases.antt =====
-- The turns of the work list, counted by the stack and the live rows.
use sqlery.Prelude.{
  sym, subst, ℕ, zero, suc, ◌+◌, ◌≤◌, ◌<◌, ◌≡◌, Bool, true, false, Option, List, [], ◌∷◌, arith,
  length, refl, mem,
}
use sqlery.Backend.{Db}
use sqlery.Backend.Dependents.{
  recheck_unless, Work, note, recheck_one, recheck_all, Released, out_of_fuel, raised, released,
  release_loop, release_dependents, dependents_of,
}
use sqlery.Backend.Release.{Recheck, recheck_blocked}
use sqlery.Backend.Shorter.{cost, recheck_blocked-length}
use sqlery.Backend.Trace
use sqlery.Backend.Trace.{Reach, Step, step, rechecks}

-- The jobs on the stack and the live rows.
abbrev weight : Work → ℕ
weight w = length w.stack + length w.db.live

note-weight :
    (j : ℕ) (w : Work) (r : Recheck) (db : Db)
    → cost r + length db.live ≤ length w.db.live
    → weight (note j w r db) ≤ weight w
note-weight j w Recheck.ready db h = omega (arith, h)
note-weight j w Recheck.failed db h = omega (arith, h)
note-weight j w Recheck.broken db h = omega (arith, h)
note-weight j w Recheck.blocked db h = omega (arith, h)
note-weight j w Recheck.gone db h = omega (arith, h)

abbrev pub is_finished : Released → Bool
is_finished out_of_fuel = false
is_finished (raised db) = true
is_finished (released n db) = true

-- The tables that the release left are reached by transactions.
abbrev pub LeavesReached : Db → Released → Type 0
LeavesReached s out_of_fuel = Unit
LeavesReached s (raised t) = Reach s t
LeavesReached s (released n t) = Reach s t

module _ (slot now : ℕ) where
  recheck_one-weight :
      (b : Bool) (d : ℕ × ℕ) (w : Work) → weight (recheck_unless slot now b d w) ≤ weight w
  recheck_one-weight true d w = omega arith
  recheck_one-weight false d w =
      note-weight d.0 w (recheck_blocked slot d.0 d.1 now w.db).0
        (recheck_blocked slot d.0 d.1 now w.db).1 (recheck_blocked-length slot d.0 d.1 now w.db)

  recheck_all-weight :
      (ds : List (ℕ × ℕ)) (w : Work) → weight (recheck_all slot now ds w) ≤ weight w
  unfolding recheck_all
  recheck_all-weight [] w = omega arith
  recheck_all-weight (d ∷ ds) w =
      omega (
        arith,
        recheck_all-weight ds (recheck_one slot now d w),
        recheck_one-weight w.has_raised d w,
      )

  abbrev turn_by : (fuel : ℕ) → List ℕ → Work → ℕ × Option ℕ → (was_seen : Bool) → Released
  turn_by fuel seen w top true = release_loop slot now fuel seen w
  turn_by fuel seen w top false =
      release_loop slot now fuel (top.0 ∷ seen)
        (recheck_all slot now (dependents_of top.0 top.1 w.db) w)

  abbrev turn_of : (fuel : ℕ) → List ℕ → Work → List (ℕ × Option ℕ) → Released
  turn_of fuel seen w [] = released w.released w.db
  turn_of fuel seen w (top ∷ rest) =
      turn_by fuel seen (record w { stack = rest }) top (mem top.0 seen)

  abbrev turn_or : (fuel : ℕ) → List ℕ → Work → (has_raised : Bool) → Released
  turn_or fuel seen w true = raised w.db
  turn_or fuel seen w false = turn_of fuel seen w w.stack

  release_loop_step :
      (fuel : ℕ) (seen : List ℕ) (w : Work)
      → release_loop slot now (suc fuel) seen w ≡ turn_or fuel seen w w.has_raised
  unfolding release_loop
  release_loop_step fuel seen w = refl

  module _ (fuel : ℕ)
      (rest : (seen : List ℕ) (w : Work)
        → weight w < fuel
        → is_finished (release_loop slot now fuel seen w) ≡ true) where
    turn_by-is_finished :
        (seen : List ℕ) (w : Work) (top : ℕ × Option ℕ) (b : Bool)
        → weight w < fuel
        → is_finished (turn_by fuel seen w top b) ≡ true
    turn_by-is_finished seen w top true enough = rest seen w enough
    turn_by-is_finished seen w top false enough =
        rest (top.0 ∷ seen) (recheck_all slot now (dependents_of top.0 top.1 w.db) w)
          (omega (arith, enough, recheck_all-weight (dependents_of top.0 top.1 w.db) w))

    turn_of-is_finished :
        (seen : List ℕ) (w : Work) (stack : List (ℕ × Option ℕ))
        → length stack + length w.db.live < suc fuel
        → is_finished (turn_of fuel seen w stack) ≡ true
    turn_of-is_finished seen w [] enough = refl
    turn_of-is_finished seen w (top ∷ stack) enough =
        turn_by-is_finished seen (record w { stack = stack }) top (mem top.0 seen)
          (omega (arith, enough))

    turn_or-is_finished :
        (seen : List ℕ) (w : Work) (b : Bool)
        → weight w < suc fuel
        → is_finished (turn_or fuel seen w b) ≡ true
    turn_or-is_finished seen w true enough = refl
    turn_or-is_finished seen w false enough = turn_of-is_finished seen w w.stack enough

  release_loop-is_finished :
      (fuel : ℕ) (seen : List ℕ) (w : Work)
      → weight w < fuel
      → is_finished (release_loop slot now fuel seen w) ≡ true
  release_loop-is_finished zero seen w enough = absurd (omega (arith, enough))
  release_loop-is_finished (suc fuel) seen w enough = rw (release_loop_step fuel seen w) (
      turn_or-is_finished fuel (λ seen' w' less. release_loop-is_finished fuel seen' w' less) seen w
        w.has_raised enough)

  module _ (s : Db) where
    note-Reach :
        (j : ℕ) (w : Work) (r : Recheck) (db : Db)
        → Reach s w.db
        → Step w.db db
        → Reach s (note j w r db).db
    note-Reach j w Recheck.ready db p x = step p x
    note-Reach j w Recheck.failed db p x = step p x
    note-Reach j w Recheck.broken db p x = step p x
    note-Reach j w Recheck.blocked db p x = step p x
    note-Reach j w Recheck.gone db p x = step p x

    recheck_unless-Reach :
        (b : Bool) (d : ℕ × ℕ) (w : Work)
        → Reach s w.db
        → Reach s (recheck_unless slot now b d w).db
    recheck_unless-Reach true d w p = p
    recheck_unless-Reach false d w p =
        note-Reach d.0 w (recheck_blocked slot d.0 d.1 now w.db).0
          (recheck_blocked slot d.0 d.1 now w.db).1 p (rechecks slot d.0 d.1 now)

    recheck_all-Reach :
        (ds : List (ℕ × ℕ)) (w : Work) → Reach s w.db → Reach s (recheck_all slot now ds w).db
    unfolding recheck_all
    recheck_all-Reach [] w p = p
    recheck_all-Reach (d ∷ ds) w p =
        recheck_all-Reach ds (recheck_one slot now d w) (recheck_unless-Reach w.has_raised d w p)

    module _ (fuel : ℕ)
        (rest : (seen : List ℕ) (w : Work)
          → Reach s w.db
          → LeavesReached s (release_loop slot now fuel seen w)) where
      turn_by-LeavesReached :
          (seen : List ℕ) (w : Work) (top : ℕ × Option ℕ) (b : Bool)
          → Reach s w.db
          → LeavesReached s (turn_by fuel seen w top b)
      turn_by-LeavesReached seen w top true p = rest seen w p
      turn_by-LeavesReached seen w top false p =
          rest (top.0 ∷ seen) (recheck_all slot now (dependents_of top.0 top.1 w.db) w)
            (recheck_all-Reach (dependents_of top.0 top.1 w.db) w p)

      turn_of-LeavesReached :
          (seen : List ℕ) (w : Work) (stack : List (ℕ × Option ℕ))
          → Reach s w.db
          → LeavesReached s (turn_of fuel seen w stack)
      turn_of-LeavesReached seen w [] p = p
      turn_of-LeavesReached seen w (top ∷ stack) p =
          turn_by-LeavesReached seen (record w { stack = stack }) top (mem top.0 seen) p

      turn_or-LeavesReached :
          (seen : List ℕ) (w : Work) (b : Bool)
          → Reach s w.db
          → LeavesReached s (turn_or fuel seen w b)
      turn_or-LeavesReached seen w true p = p
      turn_or-LeavesReached seen w false p = turn_of-LeavesReached seen w w.stack p

    release_loop_none : (seen : List ℕ) (w : Work) → release_loop slot now zero seen w ≡ out_of_fuel
    unfolding release_loop
    release_loop_none seen w = refl

    release_loop-LeavesReached :
        (fuel : ℕ) (seen : List ℕ) (w : Work)
        → Reach s w.db
        → LeavesReached s (release_loop slot now fuel seen w)
    release_loop-LeavesReached zero seen w p = rw (release_loop_none seen w) tt
    release_loop-LeavesReached (suc fuel) seen w p =
        subst (LeavesReached s) (sym (release_loop_step fuel seen w)) (
          turn_or-LeavesReached fuel (λ seen' w' q. release_loop-LeavesReached fuel seen' w' q) seen
            w w.has_raised p)

  -- The release of a finished job's dependents ends within two more turns than there are live rows,
  -- and what it leaves is reached by rechecks of one job each.
  pub release_dependents-is_finished :
      (fuel j : ℕ) (parent : Option ℕ) (db : Db)
      → length db.live + 1 < fuel
      → (is_finished (release_dependents slot now fuel j parent db) ≡ true)
        × LeavesReached db (release_dependents slot now fuel j parent db)
  unfolding release_dependents
  release_dependents-is_finished fuel j parent db enough = (
    release_loop-is_finished fuel [] _ (omega (arith, enough)),
    release_loop-LeavesReached db fuel [] _ Trace.start,
  )
