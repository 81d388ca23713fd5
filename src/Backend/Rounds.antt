-- ===== src/Backend/Rounds.antt =====
-- fastapi_sqlery/backend.py: the loop of `_claim_from_ready`, one transaction per candidate.
use sqlery.Prelude.{
  ℕ, zero, suc, Bool, not, ◌&&◌, ◌||◌, Option, none, some, List, [], ◌∷◌, ◌++◌, String, ◌==◌,
  if◌then◌else◌, is_empty, length,
}
use sqlery.Attempts.{AttemptHandle}
use sqlery.Backend.{
  Job, ReadyEntry, Db, Claimer, select_where, first, find_live, is_running, delete_ready,
  start_attempt, Start, restore, keep, claimed,
}
use sqlery.Backend.Release.{insert_blocked}
use sqlery.Backend.Scan.{
  Cursor, cursor_of, is_eligible, next_entry, Limits, tag_limited, claim_decision, Decision, ok,
  pending, raised, ended,
}
use sqlery.Ready.{is_queued, dependency_ids}

-- What became of one candidate.
pub data Turn : Type 0 where
  claims : AttemptHandle → Db → Turn
  skips blocks fails : Db → Turn
  raises : Turn

-- `delete_entry_stmt`, and its row count.
abbrev pub is_entry : ReadyEntry → ReadyEntry → Bool
is_entry e e' = (e'.slot == e.slot) && (e'.job_id == e.job_id)

abbrev pub delete_entry : ReadyEntry → Db → Db
delete_entry e db = record db { ready = select_where (λ e'. not (is_entry e e')) db.ready }

abbrev pub entry_count : ReadyEntry → Db → ℕ
entry_count e db = length (select_where (is_entry e) db.ready)

-- `job_of_entry_stmt`, or the id alone.
abbrev pub job_of : ReadyEntry → Db → Option Job
job_of e db =
    elim (first
      (select_where (λ job. (job.id == e.job_id) && (job.created_at == e.created_at)) db.live)) [
        | some job ↦ some job
        | none ↦ find_live e.job_id db
      ]

abbrev pub wait_turn : ReadyEntry → Job → Db → Turn
wait_turn e job db =
    let deps = dependency_ids job.dependencies in
    let deleted = delete_entry e db in
    if is_empty deps
    then skips db
    else if entry_count e db == 1
    then blocks (record deleted { blocked = insert_blocked job deps db.blocked })
    else skips deleted

abbrev pub started : (before deleted : Db) → Start → Turn
started before deleted restore = skips before
started before deleted keep = skips deleted
started before deleted (claimed handle db) = claims handle db

abbrev pub take_turn : Claimer → ReadyEntry → Job → Db → Turn
take_turn c e job db =
    let deleted = delete_entry e db in
    if entry_count e db == 1
    then started db deleted (start_attempt c job deleted)
    else skips deleted

abbrev pub decided : Claimer → Limits → ReadyEntry → Job → Db → Decision → Turn
decided c limits e job db (ended db') = fails (delete_ready e.job_id db')
decided c limits e job db raised = raises
decided c limits e job db pending = wait_turn e job db
decided c limits e job db ok =
    if tag_limited limits c.now db job.tags then skips db else take_turn c e job db

abbrev pub job_turn : Claimer → Limits → ReadyEntry → Db → Option Job → Turn
job_turn c limits e db none = skips (delete_entry e db)
job_turn c limits e db (some job) =
    if not (is_queued job.status) || is_running e.job_id db
    then skips (delete_entry e db)
    else decided c limits e job db (claim_decision job c.now db)

unfoldable pub turn : Claimer → Limits → ReadyEntry → Db → Turn
turn c limits e db = job_turn c limits e db (job_of e db)

-- The jobs that the scan blocked and failed, whose releases follow it.
pub record Seen : Type 0 where
  pub blocked : List (ℕ × ℕ)
  pub failed : List ℕ

pub data Scan : Type 0 where
  out_of_fuel : Scan
  raised_in : Seen → Db → Scan
  -- The claim's handle, or `none` at the end of the entries.
  ends : Option AttemptHandle → Seen → Db → Scan

abbrev pub add_blocked : ReadyEntry → Seen → Seen
add_blocked e seen = record seen { blocked = seen.blocked ++ (e.job_id, e.created_at) ∷ [] }

abbrev pub add_failed : ReadyEntry → Seen → Seen
add_failed e seen = record seen { failed = seen.failed ++ e.job_id ∷ [] }

module _ (c : Claimer) (limits : Limits) (queues : List String) (locked : ℕ → Bool) where
  -- `while True`
  unfoldable pub scan : (fuel : ℕ) (after : Option Cursor) → Seen → Db → Scan
  scan zero after seen db = out_of_fuel
  scan (suc fuel) after seen db =
      elim (next_entry (is_eligible queues c.now locked after) db.ready) [
        | none ↦ ends none seen db
        | some e ↦ elim (turn c limits e db) [
          | claims handle t ↦ ends (some handle) seen t
          | raises ↦ raised_in seen db
          | skips t ↦ scan fuel (some (cursor_of e)) seen t
          | blocks t ↦ scan fuel (some (cursor_of e)) (add_blocked e seen) t
          | fails t ↦ scan fuel (some (cursor_of e)) (add_failed e seen) t
        ]
      ]

  -- `_claim_from_ready`
  unfoldable pub claim_from_ready : (fuel : ℕ) → Db → Scan
  unfolding scan
  claim_from_ready fuel db = scan fuel none (record { blocked = []; failed = [] }) db
