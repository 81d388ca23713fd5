-- ===== src/Retry.antt =====
-- core/retry.py: the retry marker in `termination_reason`, the retry budget and policy, the delay
-- and the columns of a retry's job row. Seconds are counted in thousandths.
pub mod Reasons
pub mod Budget
pub mod Name
mod Tests
use sqlery.Prelude.{
  ℕ, zero, suc, ◌+◌, ◌-◌, ◌*◌, ◌^◌, min, Bool, true, false, ◌&&◌, ◌||◌, Option, none, some, List,
  [], ◌∷◌, ◌++◌, Text, codes, text_eq, strip_prefix, ltb, ◌==◌, if◌then◌else◌, length, get_elem?,
  is_empty,
}

abbrev pub retry_pending : Text
retry_pending = codes "retry_pending"

abbrev pub colon : ℕ
colon = b':'

unfoldable pub pending_reason : Text → Text
pending_reason [] = retry_pending
pending_reason (c ∷ reason) = retry_pending ++ colon ∷ c ∷ reason

unfoldable pub settled_reason : Text → Text
settled_reason reason =
    if text_eq reason retry_pending
    then []
    else elim (strip_prefix (retry_pending ++ colon ∷ []) reason) [
      | none ↦ reason
      | some rest ↦ rest
    ]

abbrev pub is_some {ℓ} : {A : Type ℓ} → Option A → Bool
is_some none = false
is_some (some a) = true

unfoldable pub is_retry_pending : Option Text → Bool
is_retry_pending none = false
is_retry_pending (some reason) =
    text_eq reason retry_pending || is_some (strip_prefix (retry_pending ++ colon ∷ []) reason)

-- `getattr(job, …, 0) or 0`
abbrev pub or_zero : Option ℕ → ℕ
or_zero none = 0
or_zero (some n) = n

unfoldable pub retry_budget_left : (max_retries retry_count : Option ℕ) → Bool
retry_budget_left max_retries retry_count =
    ltb 0 (or_zero max_retries) && ltb (or_zero retry_count) (or_zero max_retries)

-- An exception: whether it is a `Retry`, its countdown, and the classes it is an instance of.
pub record Failure : Type 0 where
  pub is_retry : Bool
  pub countdown : Option ℕ
  pub classes : List ℕ

pub record RetryPolicy : Type 0 where
  pub autoretry_for : Option (List ℕ)
  pub backoff_max : Option ℕ
  pub jitter : Option Bool

abbrev pub listed : ℕ → List ℕ → Bool
listed c [] = false
listed c (d ∷ ds) = (d == c) || listed c ds

-- `isinstance(exc, classes)`
abbrev pub is_instance : List ℕ → List ℕ → Bool
is_instance [] wanted = false
is_instance (c ∷ cs) wanted = listed c wanted || is_instance cs wanted

-- The policy is `none` where the task cannot be loaded.
unfoldable pub policy_allows_retry : (policy : Option RetryPolicy) (exc : Option Failure) → Bool
policy_allows_retry none exc = true
policy_allows_retry (some policy) none = elim policy.autoretry_for [ none ↦ true | some cs ↦ false ]
policy_allows_retry (some policy) (some exc) =
    if exc.is_retry
    then true
    else elim policy.autoretry_for [ none ↦ true | some cs ↦ is_instance exc.classes cs ]

unfoldable pub retry_countdown : Option Failure → Option ℕ
retry_countdown none = none
retry_countdown (some exc) = if exc.is_retry then exc.countdown else none

-- `if policy.backoff_max:` passes over `None` and zero.
abbrev pub capped : Option ℕ → ℕ → ℕ
capped none delay = delay
capped (some limit) delay = if ltb 0 limit then min delay limit else delay

abbrev pub truthy : Option Bool → Bool
truthy (some true) = true
truthy _ = false

-- `uniform d` is the draw of `random.uniform(0, d)`.
unfoldable pub shape_retry_delay :
    (uniform : ℕ → ℕ) (global_jitter : Bool) (policy : RetryPolicy) (delay : ℕ)
    (countdown : Option ℕ)
    → ℕ
shape_retry_delay uniform global_jitter policy delay (some seconds) = seconds
shape_retry_delay uniform global_jitter policy delay none =
    let delay' = capped policy.backoff_max delay in
    if truthy policy.jitter && (if global_jitter then false else true)
    then uniform delay'
    else delay'

-- The columns of a job row that a retry reads and carries over.
pub record JobSpec : Type 0 where
  pub id : ℕ
  pub retry_count : Option ℕ
  pub max_retries : Option ℕ
  pub retry_backoff : Option ℕ
  pub retry_intervals : List ℕ
  pub parent_job_id : Option ℕ
  pub priority : Option ℕ
  pub dependencies : List ℕ

-- `retry_backoff or 1.0`
abbrev pub backoff_or_default : Option ℕ → ℕ
backoff_or_default none = 1000
backoff_or_default (some b) = if b == 0 then 1000 else b

-- `intervals[i]`, where `i` is within the list.
abbrev pub interval_at : List ℕ → ℕ → ℕ
interval_at ds i = elim (get_elem? ds i) [ none ↦ 0 | some d ↦ d ]

unfoldable pub retry_delay : JobSpec → ℕ
retry_delay job =
    let count = or_zero job.retry_count in
    if is_empty job.retry_intervals
    then backoff_or_default job.retry_backoff * 2 ^ count
    else interval_at job.retry_intervals (min count (length job.retry_intervals - 1))

unfoldable pub retry_job_fields : (new_id : ℕ) → JobSpec → JobSpec × ℕ
unfolding retry_delay
retry_job_fields new_id job = (
  record {
    id = new_id;
    retry_count = some (or_zero job.retry_count + 1);
    max_retries = some (or_zero job.max_retries);
    retry_backoff = some (backoff_or_default job.retry_backoff);
    retry_intervals = job.retry_intervals;
    parent_job_id = some job.id;
    priority = some (or_zero job.priority);
    dependencies = job.dependencies;
  },
  retry_delay job,
)
