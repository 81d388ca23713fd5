-- ===== src/Backend/Cleanup.antt =====
-- cleanup_jobs and _delete_history_batch of fastapi_sqlery/backend.py, on a database without
-- partitions: history is deleted in batches. No other transaction runs between the batches here.
use sqlery.Prelude.{
  ℕ, zero, suc, ◌+◌, Bool, true, false, not, ◌&&◌, ◌||◌, Option, none, some, List, [], ◌∷◌, String,
  str_eq, ltb, leb, ◌==◌, if◌then◌else◌, mem, length, take,
}
use sqlery.Attempts.{Attempt, is_open}
use sqlery.Backend.{Job, Db, select_where, job_ids}
use sqlery.Backend.Finish.{status_matches}
use sqlery.Ready.{Status}

-- The retention policy: each part is optional.
pub record Policy : Type 0 where
  pub status : Option (List Status)
  pub queue_name : Option String
  pub cutoff : Option ℕ

abbrev pub named : Option String → String → Bool
named none q = true
named (some name) q = str_eq q name

-- `finished_at < cutoff`, which NULL does not satisfy.
abbrev pub is_before : Option ℕ → Option ℕ → Bool
is_before none finished_at = true
is_before (some cutoff) none = false
is_before (some cutoff) (some at) = ltb at cutoff

-- `_filters`
unfoldable pub matches_policy : Policy → Job → Bool
matches_policy p job =
    status_matches p.status job.status
    && named p.queue_name job.queue_name
    && is_before p.cutoff job.finished_at

-- `ORDER BY finished_at, id`
abbrev pub time_of : Option ℕ → ℕ
time_of none = 0
time_of (some at) = suc at

abbrev pub comes_first : Job → Job → Bool
comes_first a b =
    ltb (time_of a.finished_at) (time_of b.finished_at)
    || ((time_of a.finished_at == time_of b.finished_at) && leb a.id b.id)

unfoldable pub insert_row : Job → List Job → List Job
insert_row job [] = job ∷ []
insert_row job (x ∷ xs) =
    let rest = insert_row job xs in if comes_first job x then job ∷ x ∷ xs else x ∷ rest

unfoldable pub sort_rows : List Job → List Job
unfolding insert_row
sort_rows [] = []
sort_rows (job ∷ jobs) = insert_row job (sort_rows jobs)

-- `_delete_history_batch`: the rows of these ids that match, and the attempts of these ids that ended.
abbrev pub is_deleted : List ℕ → (Job → Bool) → Job → Bool
is_deleted ids test job = mem job.id ids && test job

abbrev pub is_attempt_deleted : List ℕ → Attempt → Bool
is_attempt_deleted ids a = mem a.job_id ids && not (is_open a)

unfoldable pub delete_history_batch : List ℕ → (Job → Bool) → Db → ℕ × Db
delete_history_batch ids test db = (
  length (select_where (is_deleted ids test) db.history),
  record db {
    history = select_where (λ job. not (is_deleted ids test job)) db.history;
    attempts = select_where (λ a. not (is_attempt_deleted ids a)) db.attempts;
  },
)

pub data Cleaned : Type 0 where
  out_of_fuel : Cleaned
  cleaned : (total : ℕ) → Db → Cleaned

module _ (batch : ℕ) (test : Job → Bool) where
  -- The ids of the next batch.
  abbrev pub batch_ids : Db → List ℕ
  batch_ids db = job_ids (take batch (sort_rows (select_where test db.history)))

  abbrev pub after_batch : (rest : ℕ → Db → Cleaned) → (total : ℕ) → ℕ × Db → Cleaned
  after_batch rest total (zero, db) = cleaned total db
  after_batch rest total (suc n, db) = rest (total + suc n) db

  -- `while True`
  unfoldable pub cleanup_loop : (fuel total : ℕ) → Db → Cleaned
  cleanup_loop zero total db = out_of_fuel
  cleanup_loop (suc fuel) total db = elim (batch_ids db) [
    | [] ↦ cleaned total db
    | j ∷ ids ↦
        after_batch (λ total' db'. cleanup_loop fuel total' db') total
          (delete_history_batch (j ∷ ids) test db)
  ]

-- `cleanup_jobs`, without `dry_run`; the size of a batch is CLEANUP_BATCH_SIZE.
unfoldable pub cleanup_jobs : (fuel : ℕ) → Policy → Db → Cleaned
unfolding cleanup_loop matches_policy
cleanup_jobs fuel p db = cleanup_loop 500 (matches_policy p) fuel 0 db
