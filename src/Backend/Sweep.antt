-- ===== src/Backend/Sweep.antt =====
-- maintain_ready_queue and settle_finished_jobs of fastapi_sqlery/backend.py, with the statements of
-- core/ready_sql.py and fastapi_sqlery/history_sql.py: the sweep that repairs the ready queue.
--
-- A LIMIT without an order takes the first rows of the table here. The call's transactions read one
-- time, and the partition slot of the entries is an argument, as in Backend/Release.
use sqlery.Prelude.{
  strip_prefix, ℕ, ◌+◌, Bool, true, false, not, ◌&&◌, ◌||◌, Option, none, some, List, [], ◌∷◌,
  String, str_eq, ltb, leb, ◌==◌, if◌then◌else◌, length, take,
}
use sqlery.Backend.{Job, ReadyEntry, BlockedRow, Db, select_where, is_running}
use sqlery.Backend.Complete.{settled_values, status_fences}
use sqlery.Backend.Dependents.{Released, out_of_fuel, raised, released, release_dependents}
use sqlery.Backend.Finish.{Finish, moved, finish_in}
use sqlery.Backend.Recovery.{is_terminal, settle_status, has_child}
use sqlery.Backend.Release.{write_ready, recheck_blocked, all_jobs}
use sqlery.Ready.{Status, is_queued}
use sqlery.Retry.{retry_pending, is_some}

-- `waiting_clause`
abbrev pub is_waiting : Db → Job → Bool
is_waiting db job = is_queued job.status && not (is_running job.id db)

-- An entry of the job in one of `SLOTS`.
unfoldable pub has_ready : ℕ → List ReadyEntry → Bool
has_ready j [] = false
has_ready j (e ∷ es) = (ltb e.slot 3 && (e.job_id == j)) || has_ready j es

unfoldable pub has_blocked_row : ℕ → List BlockedRow → Bool
has_blocked_row j [] = false
has_blocked_row j (b ∷ bs) = (b.job_id == j) || has_blocked_row j bs

-- `queue_name.in_(queue_names)`, without a filter if there are no names.
abbrev pub is_named : String → List String → Bool
is_named q [] = false
is_named q (name ∷ names) = str_eq name q || is_named q names

abbrev pub in_queues : List String → String → Bool
in_queues [] q = true
in_queues (name ∷ names) q = is_named q (name ∷ names)

-- The WHERE clause of the jobs whose entry was lost.
unfoldable pub is_lost : List String → Db → Job → Bool
is_lost names db job =
    is_waiting db job
    && not (has_ready job.id db.ready)
    && not (has_blocked_row job.id db.blocked)
    && in_queues names job.queue_name

-- `write_ready` for several jobs.
unfoldable pub write_ready_all : (slot : ℕ) → List Job → Db → Db
write_ready_all slot [] db = db
write_ready_all slot (job ∷ jobs) db = write_ready_all slot jobs (write_ready slot job db)

-- A waiting job of the entry's id and time of creation.
unfoldable pub is_entry_live : Db → List Job → ReadyEntry → Bool
is_entry_live db [] e = false
is_entry_live db (job ∷ jobs) e =
    ((job.id == e.job_id) && (job.created_at == e.created_at) && is_waiting db job)
    || is_entry_live db jobs e

-- The WHERE clause of the entries to drop; `locked` are the entries that others hold.
unfoldable pub is_stale : List String → (locked : ReadyEntry → Bool) → Db → ReadyEntry → Bool
is_stale names locked db e =
    not (is_entry_live db db.live e) && in_queues names e.queue_name && not (locked e)

-- `delete_entry_stmt`
abbrev pub is_entry : (slot j : ℕ) → ReadyEntry → Bool
is_entry slot j e = (e.slot == slot) && (e.job_id == j)

abbrev pub delete_entry : (slot j : ℕ) → List ReadyEntry → List ReadyEntry
delete_entry slot j = select_where (λ e. not (is_entry slot j e))

unfoldable pub delete_entries : List ReadyEntry → List ReadyEntry → List ReadyEntry
delete_entries [] es = es
delete_entries (x ∷ xs) es = delete_entries xs (delete_entry x.slot x.job_id es)

module _ (slot : ℕ) (names : List String) (limit : ℕ) where
  abbrev pub lost_jobs : Db → List Job
  lost_jobs db = take limit (select_where (is_lost names db) db.live)

  abbrev pub stale_entries : (ReadyEntry → Bool) → Db → List ReadyEntry
  stale_entries locked db = take limit (select_where (is_stale names locked db) db.ready)

  abbrev pub drop_stale : (ReadyEntry → Bool) → Db → Db
  drop_stale locked db = record db { ready = delete_entries (stale_entries locked db) db.ready }

  -- The transaction of the sweep.
  unfoldable pub repair : (locked : ReadyEntry → Bool) → Db → Db
  repair locked db = drop_stale locked (write_ready_all slot (lost_jobs db) db)

-- `SELECT DISTINCT job_id, created_at ... ORDER BY job_id`
abbrev pub insert_pair : ℕ × ℕ → List (ℕ × ℕ) → List (ℕ × ℕ)
insert_pair p [] = p ∷ []
insert_pair p (q ∷ qs) =
    let rest = insert_pair p qs in
    if (q.0 == p.0) && (q.1 == p.1) then q ∷ qs else if leb p.0 q.0 then p ∷ q ∷ qs else q ∷ rest

unfoldable pub blocked_after : ℕ → List BlockedRow → List (ℕ × ℕ)
blocked_after cursor [] = []
blocked_after cursor (b ∷ bs) =
    let rest = blocked_after cursor bs in
    if ltb cursor b.job_id then insert_pair (b.job_id, b.created_at) rest else rest

-- The page of blocked jobs, each rechecked in its own transaction, whose errors are logged.
unfoldable pub recheck_page : (slot now : ℕ) → List (ℕ × ℕ) → Db → Db
recheck_page slot now [] db = db
recheck_page slot now (p ∷ ps) db = recheck_page slot now ps (recheck_blocked slot p.0 p.1 now db).1

abbrev pub last_id : ℕ → List (ℕ × ℕ) → ℕ
last_id cursor [] = cursor
last_id cursor (p ∷ ps) = last_id p.0 ps

-- The WHERE clause of `stray_terminal_stmt`; LIKE is a test for a prefix.
unfoldable pub is_stray : (cutoff : ℕ) → Job → Bool
is_stray cutoff job =
    is_terminal job.status
    && not (is_some (strip_prefix retry_pending job.termination_reason))
    && elim job.finished_at [ none ↦ true | some at ↦ leb at cutoff ]

-- `ORDER BY created_at, id`
abbrev pub is_older : Job → Job → Bool
is_older a b = ltb a.created_at b.created_at || ((a.created_at == b.created_at) && leb a.id b.id)

unfoldable pub insert_stray : Job → List Job → List Job
insert_stray job [] = job ∷ []
insert_stray job (x ∷ xs) =
    let rest = insert_stray job xs in if is_older job x then job ∷ x ∷ xs else x ∷ rest

unfoldable pub sort_strays : List Job → List Job
unfolding insert_stray
sort_strays [] = []
sort_strays (job ∷ jobs) = insert_stray job (sort_strays jobs)

module _ (slot now : ℕ) where
  -- `_release_dependents_quietly`: the rechecks that were committed stay, whatever ends the call.
  abbrev pub tables_after : Db → Released → Db
  tables_after db out_of_fuel = db
  tables_after db (raised t) = t
  tables_after db (released n t) = t

  abbrev pub release_quietly : ℕ → Option ℕ → Db → Db
  release_quietly j parent db =
      tables_after db (release_dependents slot now (length db.live + 2) j parent db)

  -- One round: the job moves to history, and its dependents are released; `RuntimeError` leaves it.
  abbrev pub after_move : Job → Db → Finish → Db
  after_move job db (moved t) = release_quietly job.id job.parent_job_id t
  after_move job db _ = db

  abbrev pub settle_as : Job → Db → Option Status → Db
  settle_as job db none = db
  settle_as job db (some status) =
      after_move job db
        (finish_in job.id status (settled_values job) (status_fences job job.status) now db)

  unfoldable pub settle_one : Job → Db → Db
  settle_one job db =
      settle_as job db
        (settle_status job.status job.termination_reason (has_child job.id (all_jobs db)))

  unfoldable pub settle_all : List Job → Db → Db
  settle_all [] db = db
  settle_all (job ∷ jobs) db = settle_all jobs (settle_one job db)

  -- `settle_finished_jobs`
  unfoldable pub settle_finished_jobs : (limit cutoff : ℕ) → Db → Db
  unfolding sort_strays
  settle_finished_jobs limit cutoff db =
      settle_all (take limit (sort_strays (select_where (is_stray cutoff) db.live))) db

-- `maintain_ready_queue`: the tables and the cursor of the next call.
unfoldable pub maintain_ready_queue :
    (slot : ℕ)
    → List String
    → (limit after_job_id : ℕ) → (locked : ReadyEntry → Bool) → (cutoff now : ℕ) → Db
    → Db × ℕ
maintain_ready_queue slot names limit after_job_id locked cutoff now db =
    let repaired = repair slot names limit locked (settle_finished_jobs slot now limit cutoff db) in
    let page = take limit (blocked_after after_job_id repaired.blocked) in
    (recheck_page slot now page repaired, if leb limit (length page) then last_id 0 page else 0)
