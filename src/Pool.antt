-- ===== src/Pool.antt =====
-- src/sqlery/core/pool.py: the settings of a worker's pool and the decisions taken between jobs.
--
-- Raw settings reach `_positive_int` in every Python type; here they are the numbers that int() makes
-- of them, or none where it raises. A negative number is none too, since the code treats it so.
pub mod Frames
pub mod RoundTrip
pub mod Channel
mod Tests
use sqlery.Prelude.{
  ℕ, ◌+◌, ◌-◌, ◌/◌, ◌%◌, Bool, true, false, ◌&&◌, ◌||◌, Option, none, some, Text, text_eq, codes,
  ltb, leb, ◌==◌, if◌then◌else◌, min, max,
}

-- `_positive_int`
unfoldable pub positive_int : Option ℕ → Option ℕ
positive_int none = none
positive_int (some n) = if ltb 0 n then some n else none

pub record PoolSettings : Type 0 where
  pub prefork : Bool
  pub max_tasks_per_child : Option ℕ
  pub max_memory_per_child : Option ℕ
  pub db_reuse_max : Option ℕ

abbrev pub or_else : Option ℕ → Option ℕ → Option ℕ
or_else none b = b
or_else (some a) b = some a

-- `name == POOL_FORK`: any other name, unknown ones too, is the prefork pool. The name has been
-- stripped and lowered.
unfoldable pub resolve_pool_settings : Text → (tasks memory reuse : Option ℕ) → PoolSettings
unfolding positive_int text_eq
resolve_pool_settings name tasks memory reuse = record {
  prefork = if text_eq name (codes "fork") then false else true;
  max_tasks_per_child = positive_int tasks;
  max_memory_per_child = positive_int memory;
  db_reuse_max = or_else (positive_int reuse) (positive_int tasks);
}

-- The quota and the period that `cpus_from` reads, where both are numbers; `-(-q // p)` rounds up.
unfoldable pub cpus_from : (affinity : Option ℕ) → (quota_period : Option (ℕ × ℕ)) → ℕ
unfolding positive_int
cpus_from affinity none = elim (positive_int affinity) [ none ↦ 1 | some n ↦ n ]
cpus_from affinity (some (quota, period)) =
    let cpus : ℕ = elim (positive_int affinity) [ none ↦ 1 | some n ↦ n ] in
    if ltb 0 quota && ltb 0 period then min cpus (max 1 ((quota + period - 1) / period)) else cpus

-- `_positive_int(value) or cpus`
unfoldable pub resolve_concurrency : Option ℕ → ℕ → ℕ
unfolding positive_int
resolve_concurrency value cpus = elim (positive_int value) [ none ↦ cpus | some n ↦ n ]

abbrev pub truthy : Option ℕ → Bool
truthy none = false
truthy (some n) = ltb 0 n

-- A limit that is none or 0 is no limit.
unfoldable pub db_refresh_due : (jobs_done : ℕ) → Option ℕ → Bool
db_refresh_due jobs_done none = false
db_refresh_due jobs_done (some limit) = ltb 0 limit && ltb 0 jobs_done && jobs_done % limit == 0

abbrev pub exceeds : Option ℕ → Option ℕ → Bool
exceeds rss none = false
exceeds none (some limit) = false
exceeds (some rss) (some limit) = ltb 0 limit && ltb limit rss

unfoldable pub should_recycle : (jobs_done : ℕ) → (max_tasks rss max_memory : Option ℕ) → Bool
should_recycle jobs_done none rss max_memory = exceeds rss max_memory
should_recycle jobs_done (some tasks) rss max_memory =
    (ltb 0 tasks && leb tasks jobs_done) || exceeds rss max_memory
