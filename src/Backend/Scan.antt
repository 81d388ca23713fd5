-- ===== src/Backend/Scan.antt =====
-- fastapi_sqlery/backend.py: the scan of `_claim_from_ready` over the ready entries in claim order,
-- with its cursor; `_claim_decision` and `_tag_limited`.
use sqlery.Prelude.{
  ℕ, ◌+◌, ◌-◌, Bool, true, false, not, ◌&&◌, ◌||◌, Option, none, some, List, [], ◌∷◌, String, ltb,
  leb, ◌==◌, if◌then◌else◌, str_eq, codes, is_empty, length,
}
use sqlery.Backend.{delete_blocked, Job, ReadyEntry, Db, select_where, delete_ready}
use sqlery.Backend.Finish.{Finish, unchanged, row_count, moved}
use sqlery.Backend.Release.{fail_queued, lookup_in, all_jobs}
use sqlery.Ready.{Status, dependency_ids, judge_dependencies, State}

-- The keys of the claim order: `(priority DESC, created_at, job_id)`.
pub record Cursor : Type 0 where
  pub priority : ℕ
  pub created_at : ℕ
  pub job_id : ℕ

abbrev pub cursor_of : ReadyEntry → Cursor
cursor_of e = record { priority = e.priority; created_at = e.created_at; job_id = e.job_id }

-- `b` comes strictly after `a` in claim order.
abbrev pub comes_after : (a b : Cursor) → Bool
comes_after a b =
    ltb b.priority a.priority
    || (b.priority == a.priority)
      && (ltb a.created_at b.created_at || (b.created_at == a.created_at) && ltb a.job_id b.job_id)

abbrev pub past : Option Cursor → Cursor → Bool
past none b = true
past (some a) b = comes_after a b

abbrev pub listed : String → List String → Bool
listed q [] = false
listed q (p ∷ ps) = str_eq p q || listed q ps

abbrev pub is_due : (now : ℕ) → Option ℕ → Bool
is_due now none = true
is_due now (some at) = leb at now

-- The `WHERE` of `next_entry_stmt`; a locked entry is skipped.
abbrev pub is_eligible :
    (queues : List String) (now : ℕ) (locked : ℕ → Bool) → Option Cursor → ReadyEntry → Bool
is_eligible queues now locked after e =
    listed e.queue_name queues
    && is_due now e.scheduled_at
    && past after (cursor_of e)
    && not (locked e.job_id)

-- `ORDER BY … LIMIT 1`
abbrev pub sooner : ReadyEntry → Option ReadyEntry → Option ReadyEntry
sooner e none = some e
sooner e (some best) = if comes_after (cursor_of e) (cursor_of best) then some e else some best

unfoldable pub next_entry : (ReadyEntry → Bool) → List ReadyEntry → Option ReadyEntry
next_entry eligible [] = none
next_entry eligible (e ∷ es) =
    let best = next_entry eligible es in if eligible e then sooner e best else best

-- What the scan reads beside the tables: the limits per tag (`rate` is `none` for a tag without a
-- rate limit, and `some none` for one that `parse_rate_limit` rejects), and the try-locks it gets.
pub record Limits : Type 0 where
  pub conc : String → Option ℕ
  pub rate : String → Option (Option (ℕ × ℕ))
  pub lock_free : String → Bool

abbrev pub count_jobs : (Job → Bool) → List Job → ℕ
count_jobs test jobs = length (select_where test jobs)

abbrev pub is_running_status : Status → Bool
is_running_status Status.running = true
is_running_status _ = false

abbrev pub has_started : Status → Bool
has_started Status.running = true
has_started Status.success = true
has_started Status.failed = true
has_started _ = false

abbrev pub since : (threshold : ℕ) → Option ℕ → Bool
since threshold none = false
since threshold (some at) = leb threshold at

-- `_count_tag_in_session`, for its two callers.
unfoldable pub running_with_tag : String → Db → ℕ
running_with_tag tag db =
    count_jobs (λ job. is_running_status job.status && listed tag job.tags) (all_jobs db)

unfoldable pub started_with_tag : String → (threshold : ℕ) → Db → ℕ
started_with_tag tag threshold db =
    count_jobs
      (λ job. has_started job.status && since threshold job.run.started_at && listed tag job.tags)
      (all_jobs db)

abbrev pub at_concurrency : Limits → String → Db → Bool
at_concurrency limits tag db = elim (limits.conc tag) [
  | none ↦ false
  | some limit ↦ leb limit (running_with_tag tag db)
]

abbrev pub at_rate : Limits → String → (now : ℕ) → Db → Bool
at_rate limits tag now db = elim (limits.rate tag) [
  | none ↦ false
  | some parsed ↦ elim parsed [
    | none ↦ false
    | some limit ↦ leb limit.0 (started_with_tag tag (now - limit.1) db)
  ]
]

abbrev pub has_limit : Limits → String → Bool
has_limit limits tag = elim (limits.conc tag) [
  | some n ↦ true
  | none ↦ elim (limits.rate tag) [ some r ↦ true | none ↦ false ]
]

-- A tag whose lock is busy, or one at a limit, holds the job back.
abbrev pub tag_holds : Limits → (now : ℕ) → Db → String → Bool
tag_holds limits now db tag =
    has_limit limits tag
    && (not (limits.lock_free tag) || at_concurrency limits tag db || at_rate limits tag now db)

-- `_tag_limited`: the locks are taken, and the tags judged, one after another; the answer does not
-- depend on their order.
unfoldable pub tag_limited : Limits → (now : ℕ) → Db → List String → Bool
tag_limited limits now db [] = false
tag_limited limits now db (tag ∷ tags) =
    tag_holds limits now db tag || tag_limited limits now db tags

-- `_claim_decision`; `raised` is the exception of `_finish_in`.
pub data Decision : Type 0 where
  ok pending raised : Decision
  ended : Db → Decision

abbrev pub ended_by : Db → Job → Finish → Decision
ended_by db job (moved db') = ended db'
ended_by db job unchanged = ended (delete_blocked job.id (delete_ready job.id db))
ended_by db job row_count = raised

-- `if ttl and …`: zero is no limit.
abbrev pub is_expired : Job → (now : ℕ) → Bool
is_expired job now = elim job.ttl [
  | none ↦ false
  | some ttl ↦ ltb 0 ttl && ltb (job.created_at + ttl) now
]

abbrev pub by_dependencies : Job → (now : ℕ) → Db → State → Decision
by_dependencies job now db State.met = ok
by_dependencies job now db State.pending = pending
by_dependencies job now db State.failed =
    ended_by db job (fail_queued job (codes "dependency_failed") now db)

unfoldable pub claim_decision : Job → (now : ℕ) → Db → Decision
claim_decision job now db =
    let deps = dependency_ids job.dependencies in
    if is_expired job now
    then ended_by db job (fail_queued job (codes "expired") now db)
    else if is_empty deps
    then ok
    else by_dependencies job now db (judge_dependencies (lookup_in db) deps).state
