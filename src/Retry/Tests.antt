-- ===== src/Retry/Tests.antt =====
-- Retry reasons, budgets and names at concrete jobs.
use sqlery.Prelude.{
  strip_prefix, ℕ, ◌≡◌, ◌++◌, refl, Bool, Text, codes, true, false, none, some, [], ◌∷◌, ◌+◌, arith,
  leb, ◌&&◌,
}
use sqlery.Retry.{
  JobSpec, settled_reason, pending_reason, is_retry_pending, RetryPolicy, retry_job_fields,
  retry_delay,
}
use sqlery.Retry.Budget.{has_budget, exhaust, exhaust_total}
use sqlery.Retry.Name.{IsDecimal, IsClean, retry_name, retry_name-retry_name, segment, print}
use sqlery.Retry.Reasons.{settled_reason-pending_reason}

settled_reason-pending_reason_example :
    (settled_reason (pending_reason (codes "timeout")) ≡ codes "timeout")
    × (is_retry_pending (some (pending_reason (codes "timeout"))) ≡ true)
settled_reason-pending_reason_example = settled_reason-pending_reason (codes "timeout")

abbrev marked : Text
marked = codes "retry_pending:oom"

abbrev flaky : JobSpec
flaky = record {
  id = 41;
  retry_count = none;
  max_retries = some 3;
  retry_backoff = some 2000;
  retry_intervals = [];
  parent_job_id = none;
  priority = none;
  dependencies = 7 ∷ [];
}

-- 2 s doubled for the second retry.
second_delay : retry_delay (retry_job_fields 42 flaky).0 ≡ 4000
unfolding retry_job_fields
second_delay = refl

abbrev spaced : JobSpec
spaced = record flaky { retry_count = some 9; retry_intervals = 10 ∷ 60 ∷ [] }

last_interval : retry_delay spaced ≡ 60
unfolding retry_delay
last_interval = refl

exhaust_total_example :
    (has_budget (exhaust 3 (λ n. 100 + n) flaky).0 ≡ false)
    × ((exhaust 3 (λ n. 100 + n) flaky).1 ≡ 3)
exhaust_total_example = exhaust_total (λ n. 100 + n) flaky

abbrev gentle : RetryPolicy
gentle = record { autoretry_for = none; backoff_max = some 60000; jitter = some true }

abbrev ascii_digit : ℕ → Bool
ascii_digit c = leb b'0' c && leb c b'9'

ascii_digit-IsDecimal : IsDecimal ascii_digit
ascii_digit-IsDecimal = record { colon = refl; letter = refl; digit = λ d h. ground arith }

report-IsClean : IsClean ascii_digit (codes "report:7")
unfolding strip_prefix
report-IsClean = (refl, (refl, (refl, (refl, (refl, (refl, (refl, (refl, tt))))))))

retry_name_runs :
    retry_name ascii_digit (some (codes "report:retry:2")) 2 ≡ some (codes "report:retry:3")
unfolding retry_name strip_prefix print
retry_name_runs = refl

retry_name_empty : retry_name ascii_digit (some []) 2 ≡ none
unfolding retry_name
retry_name_empty = refl

retry_name-retry_name_example :
    retry_name ascii_digit (retry_name ascii_digit (some (codes "report:7")) 0) 1
    ≡ some (codes "report:7" ++ segment ++ print 2)
retry_name-retry_name_example =
    retry_name-retry_name ascii_digit-IsDecimal b'r' (codes "eport:7") 0 1 report-IsClean
