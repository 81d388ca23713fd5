-- ===== src/Staging.antt =====
-- Staged jobs: the staging of a far-future job in create_job of src/sqlery/fastapi_sqlery/backend.py, and
-- promote_due_scheduled_jobs with _promotion_insert_parts of src/sqlery/core/scheduler.py, which moves it
-- into the job table when it is due.
--
-- A row is a dictionary of its columns. A JSON value is written and read back as it is: json.dumps, the
-- cast to the column's type and the driver's decoding are the library's. None is the null of JSON and
-- of SQL alike. Webhook settings, which the standalone backend does not stage, are left out.
mod Promotion
mod Tests
use sqlery.Prelude.{
  ℕ, ◌+◌, Bool, true, false, not, ◌&&◌, ◌||◌, Option, none, some, List, [], ◌∷◌, String, str_eq,
  Text, ltb, leb, ◌==◌, if◌then◌else◌, length,
}
use sqlery.Backend.{select_where}

pub data Value : Type 0 where
  null : Value
  flag : Bool → Value
  number : ℕ → Value
  text : String → Value
  items : List ℕ → Value
  -- Any other structured value.
  value : ℕ → Value

abbrev pub Dict : Type 0
Dict = List (String × Value)

-- `d.get(key)`, where none stands for a missing key, and `d.get(key, default)`.
unfoldable pub get : String → Dict → Option Value
get key [] = none
get key ((k, v) ∷ rest) = let found = get key rest in if str_eq k key then some v else found

abbrev pub or_default : Option Value → Value → Value
or_default none default = default
or_default (some v) default = v

unfoldable pub get_or : String → Value → Dict → Value
unfolding get
get_or key default d = or_default (get key d) default

-- `v or []`
abbrev pub or_empty : Value → Value
or_empty null = items []
or_empty (flag false) = items []
or_empty (flag true) = flag true
or_empty (number n) = if n == 0 then items [] else number n
or_empty (text s) = if str_eq s "" then items [] else text s
or_empty (items xs) = items xs
or_empty (value v) = value v

-- The arguments of create_job.
pub record Arguments : Type 0 where
  pub task_path : String
  pub kwargs : Value
  pub queue_name : String
  pub priority : ℕ
  pub scheduled_at : Option ℕ
  pub max_retries : ℕ
  pub retry_backoff : ℕ
  pub allow_parallel : Bool
  pub timeout_seconds : Option ℕ
  pub retry_count : Option ℕ
  pub scheduled_task_id : Option ℕ
  pub job_name : Option String
  pub retry_intervals : Option (List ℕ)
  pub meta : Option ℕ
  pub dependencies : Option (List ℕ)
  pub on_success_path : String
  pub on_failure_path : String
  pub ttl : Option ℕ
  pub result_ttl : Option ℕ
  pub failure_ttl : Option ℕ
  pub parent_job_id : Option ℕ
  pub tags : Option (List ℕ)

abbrev pub of_number : Option ℕ → Value
of_number none = null
of_number (some n) = number n

abbrev pub of_text : Option String → Value
of_text none = null
of_text (some s) = text s

abbrev pub of_items : Option (List ℕ) → Value
of_items none = null
of_items (some xs) = items xs

abbrev pub of_meta : Option ℕ → Value
of_meta none = null
of_meta (some v) = value v

-- `xs or []` and `n if n is not None else 0`
abbrev pub list_or_empty : Option (List ℕ) → List ℕ
list_or_empty none = []
list_or_empty (some xs) = xs

abbrev pub count_or_zero : Option ℕ → ℕ
count_or_zero none = 0
count_or_zero (some n) = n

-- The QueuedJob that create_job inserts at once.
unfoldable pub queued_job : Arguments → Dict
queued_job a =
    ("task_path", text a.task_path)
    ∷ ("kwargs", a.kwargs)
    ∷ ("queue_name", text a.queue_name)
    ∷ ("priority", number a.priority)
    ∷ ("scheduled_at", of_number a.scheduled_at)
    ∷ ("max_retries", number a.max_retries)
    ∷ ("retry_backoff", number a.retry_backoff)
    ∷ ("allow_parallel", flag a.allow_parallel)
    ∷ ("timeout_seconds", of_number a.timeout_seconds)
    ∷ ("retry_count", number (count_or_zero a.retry_count))
    ∷ ("scheduled_task_id", of_number a.scheduled_task_id)
    ∷ ("job_name", of_text a.job_name)
    ∷ ("retry_intervals", of_items a.retry_intervals)
    ∷ ("meta", of_meta a.meta)
    ∷ ("dependencies", items (list_or_empty a.dependencies))
    ∷ ("on_success_path", text a.on_success_path)
    ∷ ("on_failure_path", text a.on_failure_path)
    ∷ ("ttl", of_number a.ttl)
    ∷ ("result_ttl", of_number a.result_ttl)
    ∷ ("failure_ttl", of_number a.failure_ttl)
    ∷ ("parent_job_id", of_number a.parent_job_id)
    ∷ ("tags", items (list_or_empty a.tags))
    ∷ ("status", text "queued")
    ∷ []

-- The payload: with a job_spec, or the kwargs alone, as older rows have it.
pub data Payload : Type 0 where
  full : (kwargs : Value) (job_spec : Dict) → Payload
  legacy : (kwargs : Value) → Payload

pub record ScheduledJob : Type 0 where
  pub id : ℕ
  pub created_at : ℕ
  pub queue_name : String
  pub task_path : String
  pub payload : Payload
  pub scheduled_at : Option ℕ
  pub priority : ℕ
  pub max_retries : ℕ

-- The row that create_job stages; the database gives it an id and a time.
unfoldable pub staging_row : (id created_at : ℕ) → Arguments → ScheduledJob
staging_row id created_at a = record {
  id = id;
  created_at = created_at;
  queue_name = a.queue_name;
  task_path = a.task_path;
  payload = full a.kwargs (
      ("retry_backoff", number a.retry_backoff)
      ∷ ("allow_parallel", flag a.allow_parallel)
      ∷ ("timeout_seconds", of_number a.timeout_seconds)
      ∷ ("retry_count", number (count_or_zero a.retry_count))
      ∷ ("scheduled_task_id", of_number a.scheduled_task_id)
      ∷ ("job_name", of_text a.job_name)
      ∷ ("retry_intervals", of_items a.retry_intervals)
      ∷ ("meta", of_meta a.meta)
      ∷ ("dependencies", items (list_or_empty a.dependencies))
      ∷ ("on_success_path", text a.on_success_path)
      ∷ ("on_failure_path", text a.on_failure_path)
      ∷ ("ttl", of_number a.ttl)
      ∷ ("result_ttl", of_number a.result_ttl)
      ∷ ("failure_ttl", of_number a.failure_ttl)
      ∷ ("parent_job_id", of_number a.parent_job_id)
      ∷ ("tags", items (list_or_empty a.tags))
      ∷ []);
  scheduled_at = a.scheduled_at;
  priority = a.priority;
  max_retries = a.max_retries;
}

abbrev pub kwargs_of : Payload → Value
kwargs_of (full kwargs spec) = kwargs
kwargs_of (legacy kwargs) = kwargs

abbrev pub spec_of : Payload → Dict
spec_of (full kwargs spec) = spec
spec_of (legacy kwargs) = []

-- The dictionary `staged` of a row that is promoted; a retry backoff of 1.0 is the number 1.
unfoldable pub staged_values : ScheduledJob → Dict
unfolding get_or
staged_values row =
    let spec = spec_of row.payload in
    ("id", number row.id)
    ∷ ("queue_name", text row.queue_name)
    ∷ ("task_path", text row.task_path)
    ∷ ("kwargs", kwargs_of row.payload)
    ∷ ("scheduled_at", of_number row.scheduled_at)
    ∷ ("priority", number row.priority)
    ∷ ("max_retries", number row.max_retries)
    ∷ ("status", text "queued")
    ∷ ("version", number 0)
    ∷ ("retry_count", get_or "retry_count" (number 0) spec)
    ∷ ("retry_backoff", get_or "retry_backoff" (number 1) spec)
    ∷ ("allow_parallel", get_or "allow_parallel" (flag false) spec)
    ∷ ("timeout_seconds", get_or "timeout_seconds" null spec)
    ∷ ("scheduled_task_id", get_or "scheduled_task_id" null spec)
    ∷ ("job_name", get_or "job_name" null spec)
    ∷ ("retry_intervals", get_or "retry_intervals" null spec)
    ∷ ("meta", get_or "meta" null spec)
    ∷ ("dependencies", get_or "dependencies" (items []) spec)
    ∷ ("on_success_path", get_or "on_success_path" (text "") spec)
    ∷ ("on_failure_path", get_or "on_failure_path" (text "") spec)
    ∷ ("ttl", get_or "ttl" null spec)
    ∷ ("result_ttl", get_or "result_ttl" null spec)
    ∷ ("failure_ttl", get_or "failure_ttl" null spec)
    ∷ ("parent_job_id", get_or "parent_job_id" null spec)
    ∷ ("tags", or_empty (get_or "tags" null spec))
    ∷ ("created_at", number row.created_at)
    ∷ []

-- What a NOT NULL column without any default is given: a neutral value of its type, now(), or nothing.
pub data Neutral : Type 0 where
  neutral : Value → Neutral
  now_time : Neutral
  no_neutral : Neutral

-- A column of the target table, as _read_target_columns finds it.
pub record Column : Type 0 where
  pub name : String
  pub not_null : Bool
  pub has_default : Bool
  pub otherwise : Neutral

abbrev pub neutral_values : (now : ℕ) → String → Neutral → Dict → Dict
neutral_values now name (neutral v) rest = (name, v) ∷ rest
neutral_values now name now_time rest = (name, number now) ∷ rest
neutral_values now name no_neutral rest = rest

-- The columns that are written, with their values, given the value of the staged row and the default
-- of the object-relational model.
abbrev pub column_values : (now : ℕ) → Column → (staged default : Option Value) → Dict → Dict
column_values now c (some v) default rest = (c.name, v) ∷ rest
column_values now c none (some v) rest = (c.name, v) ∷ rest
column_values now c none none rest =
    if c.not_null && not c.has_default then neutral_values now c.name c.otherwise rest else rest

-- `_promotion_insert_parts`
unfoldable pub promotion_insert_parts : (now : ℕ) → List Column → (staged defaults : Dict) → Dict
unfolding get
promotion_insert_parts now [] staged defaults = []
promotion_insert_parts now (c ∷ cs) staged defaults =
    column_values now c (get c.name staged) (get c.name defaults)
      (promotion_insert_parts now cs staged defaults)

-- The ready entry of a promoted job: its slot and the columns it repeats.
pub record Ready : Type 0 where
  pub slot : ℕ
  pub job_id : ℕ
  pub scheduled_at : Option ℕ

pub record Tables : Type 0 where
  pub staged : List ScheduledJob
  pub jobs : List Dict
  pub ready : List Ready

-- The rows that are due within `lookahead` and that no other transaction has locked.
abbrev pub is_due_by : ℕ → Option ℕ → Bool
is_due_by horizon none = false
is_due_by horizon (some at) = leb at horizon

unfoldable pub is_promoted : (now lookahead : ℕ) → (locked : ℕ → Bool) → ScheduledJob → Bool
is_promoted now lookahead locked row =
    is_due_by (now + lookahead) row.scheduled_at && not (locked row.id)

module _ (now : ℕ) (columns : List Column) (defaults : Dict) (slot : ℕ) where
  abbrev pub promoted_row : ScheduledJob → Dict
  promoted_row row = promotion_insert_parts now columns (staged_values row) defaults

  abbrev pub has_entry_of : ℕ → List Ready → Bool
  has_entry_of j [] = false
  has_entry_of j (e ∷ es) = (e.slot == slot) && (e.job_id == j) || has_entry_of j es

  -- ON CONFLICT DO NOTHING
  abbrev pub with_entry : ScheduledJob → List Ready → List Ready
  with_entry row es =
      if has_entry_of row.id es
      then es
      else record { slot = slot; job_id = row.id; scheduled_at = row.scheduled_at } ∷ es

  unfoldable pub insert_promoted : List ScheduledJob → Tables → Tables
  insert_promoted [] t = t
  insert_promoted (row ∷ rows) t =
      insert_promoted rows
        (record t { jobs = promoted_row row ∷ t.jobs; ready = with_entry row t.ready })

  -- `promote_due_scheduled_jobs`: `fails` is an error of a statement, which rolls back.
  unfoldable pub promote_due_scheduled_jobs :
      (lock_acquired fails : Bool) (lookahead : ℕ) (locked : ℕ → Bool) → Tables → ℕ × Tables
  unfolding insert_promoted is_promoted staged_values promotion_insert_parts
  promote_due_scheduled_jobs lock_acquired fails lookahead locked t =
      let due = select_where (is_promoted now lookahead locked) t.staged in
      if not lock_acquired || fails then (0, t) else (
        length due,
        insert_promoted due (record t {
          staged = select_where (λ row. not (is_promoted now lookahead locked row)) t.staged;
        }),
      )

-- `create_job` after the named jobs: past the threshold, on partitioned tables, the job is staged, and
-- otherwise its row is inserted with its entry (`insert`, see Backend/Release).
unfoldable pub is_staged : (partitioned : Bool) → (now threshold : ℕ) → Option ℕ → Bool
is_staged partitioned now threshold none = false
is_staged partitioned now threshold (some at) = partitioned && ltb (now + threshold) at

unfoldable pub create_job :
    (insert : Dict → Tables → Tables)
    → (partitioned : Bool) → (now threshold id : ℕ) → Arguments
    → Tables
    → Tables
unfolding is_staged staging_row queued_job
create_job insert partitioned now threshold id a t =
    if is_staged partitioned now threshold a.scheduled_at
    then record t { staged = staging_row id now a ∷ t.staged }
    else insert (queued_job a) t
