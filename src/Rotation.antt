-- ===== src/Rotation.antt =====
-- core/rotation.py: the configuration, the writers' plan, the rotator's decision and the lag.
-- Seconds are natural numbers (epoch seconds, as the database's sequences store them).
pub mod Store
pub mod Decide
pub mod Keeps
pub mod Tick
pub mod Ticks
pub mod Writer
pub mod Fence
mod Tests
use sqlery.Prelude.{
  ℕ, ◌+◌, ◌-◌, ◌*◌, ◌%◌, String, Bool, true, false, ◌&&◌, Option, none, some, ltb, leb, ◌==◌,
  if◌then◌else◌, str_eq,
}

abbrev pub slot_count : ℕ
slot_count = 3

abbrev pub slot_default : ℕ
slot_default = 0

unfoldable pub slot_for_generation : ℕ → ℕ
slot_for_generation generation = generation % slot_count

pub record RotationConfig : Type 0 where
  pub enabled : Bool
  pub interval : ℕ
  pub drain_batch : ℕ
  pub lag_degraded_seconds : ℕ

unfoldable pub lag_threshold : RotationConfig → ℕ
lag_threshold c =
    if ltb 0 c.lag_degraded_seconds then c.lag_degraded_seconds else 3 * c.interval + 60

pub record WriterPlan : Type 0 where
  pub fenced : Bool
  pub slot : Option ℕ

unfoldable pub plan_writer :
    (enabled : Bool) (dialect : String) (sequence_present : Bool) → WriterPlan
plan_writer enabled dialect sequence_present =
    if enabled && str_eq dialect "postgresql" && sequence_present
    then record { fenced = true; slot = none }
    else record { fenced = false; slot = some slot_default }

-- A value for each of the three slots, indexed as the source indexes its tuples.
pub record Three {ℓ} (A : Type ℓ) : Type ℓ where
  pub first : A
  pub second : A
  pub third : A

abbrev pub at_slot {ℓ} : {A : Type ℓ} → Three A → ℕ → A
at_slot t i = if i == 0 then t.first else if i == 1 then t.second else t.third

pub record RotationState : Type 0 where
  pub generation : ℕ
  pub nonempty : Three Bool
  pub dirty : Three Bool
  pub now : ℕ
  pub last_switch : Option ℕ
  pub interval : ℕ
  pub switch_lock : Option Bool
  pub reclaim_lock : Option Bool

abbrev pub current : RotationState → ℕ
current s = s.generation % slot_count

-- `(cur - 1) % 3` of Python is `(cur + 2) % 3`.
unfoldable pub others : RotationState → ℕ × ℕ
others s = ((current s + 2) % slot_count, (current s + 1) % slot_count)

unfoldable pub interval_elapsed : RotationState → Bool
interval_elapsed s = elim s.last_switch [ none ↦ true | some t ↦ leb (t + s.interval) s.now ]

pub data Action : Type 0 where
  idle : Action
  drain reclaim : (slot : ℕ) → Action
  switch : Action
  retry_reclaim : (slot : ℕ) → Action
  retry_switch : Action

-- `state.reclaim_lock is False`
abbrev pub refused : Option Bool → Bool
refused (some false) = true
refused _ = false

-- The part of the decision behind the two loops over the other slots.
abbrev pub decide_switch : RotationState → Action
decide_switch s =
    if interval_elapsed s then (if refused s.switch_lock then retry_switch else switch) else idle

abbrev pub clean_slot : RotationState → ℕ → Action
clean_slot s slot = if refused s.reclaim_lock then retry_reclaim slot else reclaim slot

unfoldable pub decide_rotation_step : RotationState → Action
unfolding others interval_elapsed
decide_rotation_step s =
    let (previous, next) = others s in
    if at_slot s.nonempty previous
    then drain previous
    else if at_slot s.nonempty next
    then drain next
    else if at_slot s.dirty previous
    then clean_slot s previous
    else if at_slot s.dirty next
    then clean_slot s next
    else decide_switch s

unfoldable pub rotation_lag : (now : ℕ) (last_reclaim last_switch : Option ℕ) → Option ℕ
rotation_lag now (some t) last_switch = some (now - t)
rotation_lag now none (some t) = some (now - t)
rotation_lag now none none = none

pub data Health : Type 0 where
  ok degraded unknown : Health

unfoldable pub assess_rotation : (enabled : Bool) (lag : Option ℕ) (threshold : ℕ) → Health
assess_rotation false lag threshold = ok
assess_rotation true none threshold = unknown
assess_rotation true (some lag) threshold =
    if ltb 0 threshold && ltb threshold lag then degraded else ok
