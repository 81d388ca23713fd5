-- ===== src/Staging/Tests.antt =====
-- A job that waits for an hour, staged and promoted into a table with a column of a later version.
use sqlery.Prelude.{◌≡◌, true, false, none, some, List, [], ◌∷◌, String, refl}
use sqlery.Staging.{
  value, no_neutral, number, get, Arguments, queued_job, staging_row, staged_values, Column,
  Neutral, neutral, promotion_insert_parts, Tables, create_job, promote_due_scheduled_jobs,
}
use sqlery.Staging.Promotion.{promoted_row-queued_job, has_column}

abbrev arguments : Arguments
arguments = record {
  task_path = "reports.send";
  kwargs = value 1;
  queue_name = "default";
  priority = 3;
  scheduled_at = some 3600;
  max_retries = 2;
  retry_backoff = 60;
  allow_parallel = true;
  timeout_seconds = none;
  retry_count = none;
  scheduled_task_id = none;
  job_name = some "weekly";
  retry_intervals = none;
  meta = none;
  dependencies = some (7 ∷ []);
  on_success_path = "";
  on_failure_path = "";
  ttl = some 900;
  result_ttl = none;
  failure_ttl = none;
  parent_job_id = none;
  tags = none;
}

abbrev required : String → Neutral → Column
required name o = record { name = name; not_null = true; has_default = false; otherwise = o }

abbrev columns : List Column
columns =
    required "id" no_neutral
    ∷ required "ttl" no_neutral
    ∷ required "added_later" (neutral (number 0))
    ∷ []

abbrev empty : Tables
empty = record { staged = []; jobs = []; ready = [] }

abbrev staged : Tables
unfolding create_job
staged = create_job (λ job t. t) true 0 60 5 arguments empty

promoted : promote_due_scheduled_jobs 3590 columns [] 1 true false 30 (λ i. false) staged ≡ (
  1,
  record {
    staged = [];
    jobs = (("id", number 5) ∷ ("ttl", number 900) ∷ ("added_later", number 0) ∷ []) ∷ [];
    ready = record { slot = 1; job_id = 5; scheduled_at = some 3600 } ∷ [];
  },
)
unfolding promote_due_scheduled_jobs create_job
promoted = refl

too_early :
    promote_due_scheduled_jobs 3000 columns [] 1 true false 30 (λ i. false) staged ≡ (0, staged)
unfolding promote_due_scheduled_jobs create_job
too_early = refl

has_ttl : has_column "ttl" columns ≡ true
has_ttl = refl

queued_ttl : get "ttl" (queued_job arguments) ≡ some (number 900)
unfolding get queued_job
queued_ttl = refl

promoted_row-queued_job_example :
    get "ttl" (promotion_insert_parts 3590 columns (staged_values (staging_row 5 0 arguments)) [])
    ≡ some (number 900)
promoted_row-queued_job_example =
    promoted_row-queued_job 3590 5 0 columns [] arguments "ttl" (number 900) has_ttl queued_ttl
