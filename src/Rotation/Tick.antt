-- ===== src/Rotation/Tick.antt =====
-- core/rotation.py, run_rotation_tick: the bounded loop over steps, each its own transaction, with
-- other sessions acting between reading the state and taking the step.
use sqlery.Prelude.{
  ℕ, zero, suc, ◌+◌, Bool, true, false, Option, none, some, ◌==◌, ltb, if◌then◌else◌,
}
use sqlery.Rotation.{RotationConfig, RotationState, Action, decide_rotation_step}
use sqlery.Rotation.Store
use sqlery.Rotation.Store.{ReadyDb, Locks, Outcome, read_state}

-- The reasons that a report gives under "retry".
pub data Reason : Type 0 where
  partition_locked writer_open held_by_claimers reclaim_failed state_changed : Reason

pub record Report : Type 0 where
  pub switched : ℕ
  pub drained : ℕ
  pub reclaimed : ℕ
  pub retry : Option Reason

-- The environment of one step: what other sessions do before it, and the locks they hold then.
pub record World : Type 0 where
  pub interfere : ReadyDb → ReadyDb
  pub locks : Locks

abbrev pub reason : Action → Option Reason
reason (Action.retry_reclaim slot) = some partition_locked
reason Action.retry_switch = some writer_open
reason _ = none

-- One round's result: whether the loop goes on, the report and the database.
pub record Round : Type 0 where
  pub continues : Bool
  pub report : Report
  pub db : ReadyDb

abbrev pub drain_round : RotationConfig → World → (slot : ℕ) → Report → ReadyDb → Round
drain_round config world slot report db =
    let (moved, after) = Store.drain world.locks slot config.drain_batch (world.interfere db) in
    let counted = record report { drained = report.drained + moved } in
    if moved == 0
    then record {
      continues = false;
      report = record counted { retry = some held_by_claimers };
      db = after;
    }
    else record { continues = true; report = counted; db = after }

abbrev pub reclaim_round :
    RotationConfig → World → RotationState → (slot : ℕ) → Report → ReadyDb → Round
reclaim_round config world state slot report db =
    let (done, after) = Store.reclaim world.locks slot config.drain_batch (world.interfere db) in
    let again = decide_rotation_step (record state { reclaim_lock = some false }) in
    if done
    then record {
      continues = true;
      report = record report { reclaimed = report.reclaimed + 1 };
      db = after;
    }
    else record {
      continues = false;
      report = record report {
        retry = elim (reason again) [ none ↦ some reclaim_failed | some r ↦ some r ];
      };
      db = after;
    }

abbrev pub switch_outcome : RotationState → Report → Outcome → ReadyDb → Round
switch_outcome state report Outcome.switched after = record {
  continues = true;
  report = record report { switched = report.switched + 1 };
  db = after;
}
switch_outcome state report Outcome.busy after = record {
  continues = false;
  report = record report {
    retry = reason (decide_rotation_step (record state { switch_lock = some false }));
  };
  db = after;
}
switch_outcome state report Outcome.skipped after = record {
  continues = false;
  report = record report { retry = some state_changed };
  db = after;
}

abbrev pub switch_round : RotationConfig → World → RotationState → Report → ReadyDb → Round
switch_round config world state report db =
    let (outcome, after) = Store.switch world.locks config.interval (world.interfere db) in
    if ltb 0 report.switched
    then record { continues = false; report = report; db = db }
    else switch_outcome state report outcome after

unfoldable pub perform : RotationConfig → World → RotationState → Action → Report → ReadyDb → Round
perform config world state Action.idle report db = record {
  continues = false;
  report = report;
  db = db;
}
perform config world state (Action.drain slot) report db = drain_round config world slot report db
perform config world state (Action.reclaim slot) report db =
    reclaim_round config world state slot report db
perform config world state Action.switch report db = switch_round config world state report db
perform config world state action report db = record {
  continues = false;
  report = record report { retry = reason action };
  db = db;
}

abbrev pub round : RotationConfig → World → Report → ReadyDb → Round
round config world report db =
    let state = read_state db config.interval in
    perform config world state (decide_rotation_step state) report db

-- The loop, by recursion on the steps left; `worlds` gives the environment of each.
unfoldable pub tick_loop :
    RotationConfig → (worlds : ℕ → World) → (steps : ℕ) → Report → ReadyDb → Report × ReadyDb
tick_loop config worlds zero report db = (report, db)
tick_loop config worlds (suc steps) report db =
    let r = round config (worlds steps) report db in
    elim r.continues [
      | true ↦ tick_loop config worlds steps r.report r.db
      | false ↦ (r.report, r.db)
    ]

abbrev pub max_steps_per_tick : ℕ
max_steps_per_tick = 50

unfoldable pub run_rotation_tick :
    RotationConfig → (worlds : ℕ → World) → (max_steps : ℕ) → ReadyDb → Report × ReadyDb
unfolding tick_loop
run_rotation_tick config worlds max_steps db =
    tick_loop config worlds max_steps
      (record { switched = 0; drained = 0; reclaimed = 0; retry = none }) db
