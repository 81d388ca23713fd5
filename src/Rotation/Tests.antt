-- ===== src/Rotation/Tests.antt =====
-- Runs of the rotator on a small ready table, and the theorems at them.
use sqlery.Prelude.{ℕ, ◌≡◌, refl, true, false, none, [], ◌∷◌, ◌+◌, ◌≤◌, ◌%◌}
use sqlery.Rotation.{decide_rotation_step, RotationConfig}
use sqlery.Rotation.Fence.{System, Step, begin, here, next, insert_hits_current}
use sqlery.Rotation.Keeps.{has_entry}
use sqlery.Rotation.Store
use sqlery.Rotation.Store.{
  drain, pick, move_rows, reclaim, insert_new, ids, read_state, Entry, ReadyDb,
}
use sqlery.Rotation.Tick.{perform, World, run_rotation_tick, max_steps_per_tick}
use sqlery.Rotation.Ticks.{run_rotation_tick-has_entry, run_rotation_tick-generation}
use sqlery.Rotation.Writer.{SequenceProbe, writer_slot}

abbrev entry : ℕ → Entry
entry j = record {
  job_id = j;
  queue_name = "default";
  priority = 0;
  created_at = j;
  scheduled_at = none;
}

-- Generation 4: writers use slot 1; slot 0 still holds two rows of the previous generation.
abbrev table : ReadyDb
table = record {
  generation = 4;
  rows = record { first = entry 7 ∷ entry 8 ∷ []; second = entry 9 ∷ []; third = [] };
  sized = record { first = true; second = true; third = false };
  switch_ts = 1000;
  reclaim_ts = 940;
  clock = 1100;
}

abbrev config : RotationConfig
config = record { enabled = true; interval = 60; drain_batch = 1000; lag_degraded_seconds = 0 }

abbrev quiet : ℕ → World
quiet n = record {
  interfere = λ db. db;
  locks = record { held = λ j. false; key_busy = false; table_busy = false };
}

-- Opens what a run of the tick computes with.
ticking : Unit {0}
unfolding run_rotation_tick perform decide_rotation_step read_state drain pick move_rows reclaim
    Store.switch insert_new
ticking = tt

tick_runs :
    (run_rotation_tick config quiet max_steps_per_tick table).0
    ≡ record { switched = 1; drained = 5; reclaimed = 2; retry = none }
unfolding ticking
tick_runs = refl

-- After the tick the writers use slot 2, which holds every row, and the others are reclaimed.
tick_result :
    ids (run_rotation_tick config quiet max_steps_per_tick table).1.rows.third ≡ 9 ∷ 7 ∷ 8 ∷ []
unfolding ticking
tick_result = refl

run_rotation_tick-has_entry_example :
    has_entry 8 (run_rotation_tick config quiet 50 table).1 ≡ has_entry 8 table
run_rotation_tick-has_entry_example =
    run_rotation_tick-has_entry config quiet 50 8 table (λ n db. refl)

run_rotation_tick-generation_example :
    ((run_rotation_tick config quiet 50 table).1.generation
      ≡ 4 + (run_rotation_tick config quiet 50 table).0.switched)
    × ((run_rotation_tick config quiet 50 table).0.switched ≤ 1)
run_rotation_tick-generation_example =
    run_rotation_tick-generation config quiet 50 table (λ n db. refl)

-- A writer opens, the rotator cannot switch past it, and its insert meets the current slot.
abbrev opened : System
opened = record { db = table; writers = 1 ∷ [] }

abbrev resting : System
resting = record { db = table; writers = [] }

abbrev known_sequence : SequenceProbe
known_sequence = record { present = true; retry_at = 0 }

opened_step : Step resting opened
unfolding writer_slot
opened_step = begin known_sequence 0 true "postgresql" refl refl

insert_hits_current_example : 1 ≡ opened.db.generation % 3
insert_hits_current_example =
    insert_hits_current {s = resting} {t = opened} 1 [] [] refl (next here opened_step) refl
