-- ===== src/Rotation/Decide.antt =====
-- What the rotator's decision promises: when it switches, and which slots it touches.
use sqlery.Prelude.{◌+◌, ◌%◌, ◌<◌, ◌≡◌, ◌≢◌, ◌↔◌, true, false, arith}
use sqlery.Rotation.{
  RotationState, at_slot, current, interval_elapsed, refused, Action, idle, drain, reclaim, switch,
  retry_reclaim, retry_switch, decide_rotation_step,
}

-- Neither slot that writers do not use holds a row or unreclaimed storage.
abbrev pub RestClean : RotationState → Type 0
RestClean s =
    (at_slot s.nonempty ((current s + 2) % 3) ≡ false)
    × (at_slot s.nonempty ((current s + 1) % 3) ≡ false)
    × (at_slot s.dirty ((current s + 2) % 3) ≡ false)
    × (at_slot s.dirty ((current s + 1) % 3) ≡ false)

-- The decision is to switch exactly when both other slots are empty and reclaimed, the interval
-- has elapsed, and the last attempt was not refused the lock.
decide_rotation_step-switch :
    (s : RotationState)
    → (decide_rotation_step s ≡ switch)
      ↔ (RestClean s × (interval_elapsed s ≡ true) × (refused s.switch_lock ≡ false))
unfolding decide_rotation_step
decide_rotation_step-switch s = ground arith

-- What a step may be: a drain of another slot that holds rows; a reclaim of an empty one that is
-- dirty, when no other slot holds rows; and the steps behind the clean slots.
abbrev pub IsSound : RotationState → Action → Type 0
IsSound s idle = RestClean s × (interval_elapsed s ≡ false)
IsSound s (drain i) = (i ≢ current s) × (i < 3) × (at_slot s.nonempty i ≡ true)
IsSound s (reclaim i) =
    (i ≢ current s)
    × (i < 3)
    × (at_slot s.nonempty ((current s + 2) % 3) ≡ false)
    × (at_slot s.nonempty ((current s + 1) % 3) ≡ false)
    × (at_slot s.dirty i ≡ true)
    × (refused s.reclaim_lock ≡ false)
IsSound s switch = RestClean s × (interval_elapsed s ≡ true) × (refused s.switch_lock ≡ false)
IsSound s (retry_reclaim i) =
    (i ≢ current s) × (i < 3) × (at_slot s.dirty i ≡ true) × (refused s.reclaim_lock ≡ true)
IsSound s retry_switch = RestClean s × (interval_elapsed s ≡ true) × (refused s.switch_lock ≡ true)

-- Every decision is sound for the state that it was taken in: it drains another slot that holds
-- rows, reclaims an empty dirty one, switches behind clean slots, or waits on a refused lock.
pub decide_rotation_step-IsSound : (s : RotationState) → IsSound s (decide_rotation_step s)
unfolding decide_rotation_step
decide_rotation_step-IsSound s = ground arith
