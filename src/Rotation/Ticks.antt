-- ===== src/Rotation/Ticks.antt =====
-- What a whole tick of the rotator promises, whatever other sessions do between its steps.
use sqlery.Prelude.{ℕ, zero, suc, refl, none, ◌+◌, ◌≡◌, arith, ◌<◌, ◌≤◌}
use sqlery.Rotation.{RotationConfig, RotationState, Action, decide_rotation_step}
use sqlery.Rotation.Decide.{IsSound, decide_rotation_step-IsSound}
use sqlery.Rotation.Keeps.{has_entry, drain-has_entry, reclaim-has_entry, switch-has_entry}
use sqlery.Rotation.Store
use sqlery.Rotation.Store.{ReadyDb, Locks, Outcome, read_state}
use sqlery.Rotation.Tick.{Report, World, perform, tick_loop, run_rotation_tick}

abbrev InRange : Action → Type 0
InRange (Action.drain slot) = slot < 3
InRange (Action.reclaim slot) = slot < 3
InRange _ = Unit

IsSound-InRange : (s : RotationState) (a : Action) → IsSound s a → InRange a
IsSound-InRange s (Action.drain slot) h = h.1
IsSound-InRange s (Action.reclaim slot) h = h.1
IsSound-InRange s _ h = tt

-- Other sessions leave the entry of job `j` alone.
abbrev pub LeavesAlone : ℕ → World → Type 0
LeavesAlone j world = (db : ReadyDb) → has_entry j (world.interfere db) ≡ has_entry j db

module _ (config : RotationConfig) (j : ℕ) where
  perform-has_entry :
      (world : World) (state : RotationState) (action : Action) (report : Report) (db : ReadyDb)
      → InRange action
      → LeavesAlone j world
      → has_entry j (perform config world state action report db).db ≡ has_entry j db
  unfolding perform
  perform-has_entry world state Action.idle report db r h = refl
  perform-has_entry world state (Action.drain slot) report db r h =
      ground
        (arith, h db, drain-has_entry world.locks slot config.drain_batch j (world.interfere db))
  perform-has_entry world state (Action.reclaim slot) report db r h =
      ground
        (arith, h db, reclaim-has_entry world.locks slot config.drain_batch j (world.interfere db))
  perform-has_entry world state Action.switch report db r h =
      ground (arith, h db, switch-has_entry world.locks config.interval j (world.interfere db))
  perform-has_entry world state _ report db r h = refl

  tick_loop-has_entry :
      (worlds : ℕ → World) (steps : ℕ) (report : Report) (db : ReadyDb)
      → ((n : ℕ) → LeavesAlone j (worlds n))
      → has_entry j (tick_loop config worlds steps report db).1 ≡ has_entry j db
  unfolding tick_loop
  tick_loop-has_entry worlds zero report db h = refl
  tick_loop-has_entry worlds (suc steps) report db h =
      let state = read_state db config.interval in
      let action = decide_rotation_step state in
      let r = perform config (worlds steps) state action report db in
      ground (
        arith,
        tick_loop-has_entry worlds steps r.report r.db h,
        perform-has_entry (worlds steps) state action report db
            (IsSound-InRange state action (decide_rotation_step-IsSound state)) (h steps),
      )

-- A tick keeps the ready entry of every job whose entry the other sessions leave alone, and gives
-- none to a job that had none.
pub run_rotation_tick-has_entry :
    (config : RotationConfig) (worlds : ℕ → World) (max_steps j : ℕ) (db : ReadyDb)
    → ((n : ℕ) → LeavesAlone j (worlds n))
    → has_entry j (run_rotation_tick config worlds max_steps db).1 ≡ has_entry j db
unfolding run_rotation_tick
run_rotation_tick-has_entry config worlds max_steps j db h =
    tick_loop-has_entry config j worlds max_steps _ db h

-- Other sessions do not advance the generation.
abbrev pub KeepsGeneration : World → Type 0
KeepsGeneration world = (db : ReadyDb) → (world.interfere db).generation ≡ db.generation

module _ (config : RotationConfig) where
  perform-generation :
      (world : World) (state : RotationState) (action : Action) (report : Report) (db : ReadyDb)
      → KeepsGeneration world
      → report.switched ≤ 1
      → ((perform config world state action report db).db.generation + report.switched
          ≡ db.generation + (perform config world state action report db).report.switched)
        × ((perform config world state action report db).report.switched ≤ 1)
  unfolding perform Store.drain Store.reclaim Store.switch Store.move_rows
  perform-generation world state Action.idle report db h le = ground arith
  perform-generation world state action report db h le = ground (arith, h db)

  tick_loop-generation :
      (worlds : ℕ → World) (steps : ℕ) (report : Report) (db : ReadyDb)
      → ((n : ℕ) → KeepsGeneration (worlds n))
      → report.switched ≤ 1
      → ((tick_loop config worlds steps report db).1.generation + report.switched
          ≡ db.generation + (tick_loop config worlds steps report db).0.switched)
        × ((tick_loop config worlds steps report db).0.switched ≤ 1)
  unfolding tick_loop
  tick_loop-generation worlds zero report db h le = ground arith
  tick_loop-generation worlds (suc steps) report db h le =
      let state = read_state db config.interval in
      let action = decide_rotation_step state in
      let r = perform config (worlds steps) state action report db in
      ground (
        arith,
        tick_loop-generation worlds steps r.report r.db h,
        perform-generation (worlds steps) state action report db (h steps) le,
      )

-- While nobody else switches, the generation grows by the number of switches that the tick
-- reports, and that is one at most.
pub run_rotation_tick-generation :
    (config : RotationConfig) (worlds : ℕ → World) (max_steps : ℕ) (db : ReadyDb)
    → ((n : ℕ) → KeepsGeneration (worlds n))
    → ((run_rotation_tick config worlds max_steps db).1.generation
        ≡ db.generation + (run_rotation_tick config worlds max_steps db).0.switched)
      × ((run_rotation_tick config worlds max_steps db).0.switched ≤ 1)
unfolding run_rotation_tick
run_rotation_tick-generation config worlds max_steps db h = ground (
  arith,
  tick_loop-generation config worlds max_steps
      (record { switched = 0; drained = 0; reclaimed = 0; retry = none }) db h,
)
