-- ===== src/Schedule/NextRun.antt =====
-- The next run of a cron task.
use sqlery.Prelude.{
  leb→le, refl, sym, ℕ, zero, suc, ◌≤◌, ◌<◌, ◌≡◌, max, arith, Bool-cases, inl, inr, leb,
}
use sqlery.Schedule.{clamp, calculate_next_run}

-- What a next occurrence is: later than its base, and the next occurrence of every time between.
pub record IsNext (next : (expression base : ℕ) → ℕ) : Type 0 where
  pub later : (expression base : ℕ) → base < next expression base
  pub nearest :
      (expression base time : ℕ)
      → base ≤ time
      → time < next expression base
      → next expression time ≡ next expression base

module _ (next : (expression base : ℕ) → ℕ) (n : IsNext next) where
  -- A candidate beyond `now`, on the way from a base that is not, is the next occurrence after `now`.
  clamp_lem :
      (fuel expression now base : ℕ)
      → base ≤ now
      → now < clamp next fuel expression now (next expression base)
      → clamp next fuel expression now (next expression base) ≡ next expression now
  unfolding clamp
  clamp_lem zero expression now base h k = sym (n.nearest expression base now h k)
  clamp_lem (suc fuel) expression now base h k =
      elim (Bool-cases (leb (next expression base) now)) [
        | inl more ↦
            rw more
              (clamp_lem fuel expression now (next expression base) (ground arith) (rw more at k))
        | inr past ↦ rw past (sym (n.nearest expression base now h (ground arith)))
      ]

  clamp_past :
      (fuel expression now candidate : ℕ)
      → now < candidate
      → clamp next fuel expression now candidate ≡ candidate
  unfolding clamp
  clamp_past zero expression now candidate h = refl
  clamp_past (suc fuel) expression now candidate h = ground arith

  calculate_next_run-now :
      (cap expression base now : ℕ)
      → base ≤ now
      → calculate_next_run next cap expression base now ≡ next expression now
  unfolding calculate_next_run
  calculate_next_run-now cap expression base now h =
      elim (Bool-cases (leb (clamp next cap expression now (next expression base)) now)) [
        | inl stale ↦ rw stale refl
        | inr past ↦ rw past (clamp_lem cap expression now base h (ground arith))
      ]

  calculate_next_run-base :
      (cap expression base now : ℕ)
      → now < base
      → calculate_next_run next cap expression base now ≡ next expression base
  unfolding calculate_next_run
  calculate_next_run-base cap expression base now h =
      rw
        (clamp_past cap expression now (next expression base)
          (omega (arith, n.later expression base)))
        (ground (arith, n.later expression base))

  -- With a cron library that finds the nearest later occurrence, the next run, whatever the cap on
  -- the loop is, is the next occurrence after the later of the base and the present: ticks that
  -- were missed are skipped.
  pub calculate_next_run-next :
      (cap expression base now : ℕ)
      → calculate_next_run next cap expression base now ≡ next expression (max base now)
  calculate_next_run-next cap expression base now = elim (Bool-cases (leb base now)) [
    | inl early ↦
        let reached = leb→le base now early in
        let same : max base now ≡ now = omega arith in
        rw same (calculate_next_run-now cap expression base now reached)
    | inr ahead ↦
        let before : now < base = ground arith in
        let same : max base now ≡ base = omega arith in
        rw same (calculate_next_run-base cap expression base now before)
  ]

  pub calculate_next_run-later :
      (cap expression base now : ℕ) → base < calculate_next_run next cap expression base now
  calculate_next_run-later cap expression base now =
      rw (calculate_next_run-next cap expression base now)
        (omega (arith, n.later expression (max base now)))
