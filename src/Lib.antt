-- ===== src/Lib.antt =====
-- sqlery: a job queue that keeps its jobs in SQL tables.
--
-- The program enqueues jobs as rows, lets workers claim them, records how each ended in a history
-- table, retries failures, and rotates the partitions of the ready table. This library models the
-- logic of the standalone (SQLAlchemy) backend and of the core modules that it shares with the Django
-- mode. Paths are from the root of the repository.
--
-- Prelude: names of the libraries, tests on native numbers (Prelude/Tests), lists (Prelude/Lists) and
--   texts as lists of code points (Prelude/Strings).
-- Rotation: src/sqlery/core/rotation.py. Rotation holds the settings (plan_writer), RotationState and
--   decide_rotation_step, rotation_lag and assess_rotation; Rotation/Store is SqlRotationIO on a
--   database of three partitions, two sequences and a clock; Rotation/Tick is run_rotation_tick, where
--   every round may see other sessions act first; Rotation/Writer is writer_slot with its probe;
--   Rotation/Fence is the system of writers and the rotator as a step relation. Rotation/Decide,
--   Rotation/Keeps and Rotation/Ticks hold proofs.
-- Retry: src/sqlery/core/retry.py: the marker in termination_reason, the budget, the policy, the
--   delay and the columns of the retry. Retry/Name is the substitution in the job's name, on a digit
--   test, since the pattern's digit class is that of the regular-expression library.
-- Ready: src/sqlery/core/ready.py: dependency_ids, judge_dependencies with the walk along the retry
--   chain, and Throttle (Ready/Throttle). Ready/Judge and Ready/Chain hold proofs.
-- Reconnect: src/sqlery/core/db_resilience.py and _with_reconnect of src/sqlery/core/worker.py: the
--   patterns of errors, is_connection_lost on a list of exceptions, retry_on_db_error. Reconnect/Lost
--   and Reconnect/Tries hold proofs.
-- Attempts: src/sqlery/core/attempts.py and src/sqlery/fastapi_sqlery/attempt_sql.py: the attempts, and
--   the statements that open, close and count them.
-- Backend: src/sqlery/fastapi_sqlery/backend.py, with history_sql.py beside it and
--   src/sqlery/core/ready_sql.py. Backend has the rows, the tables and _start_attempt, _open_attempt
--   and _close_attempt; Backend/Finish the terminal move; Backend/Claim atomic_claim_job and
--   claim_job_by_id; Backend/Complete _fenced_update and mark_job_archived; Backend/Release
--   write_ready, create_job, expire_queued_job, cancel_job, block_job and _recheck_blocked;
--   Backend/Recovery fail_zombie_job, release_job, release_claimed_job, abandon_attempts,
--   settle_retry_pending and a round of settle_finished_jobs; Backend/Scan next_entry_stmt,
--   _claim_decision and _tag_limited; Backend/Rounds the loop of _claim_from_ready;
--   Backend/Dependents release_dependents; Backend/Ancestors cascade_ancestor_status; Backend/Sweep
--   maintain_ready_queue and settle_finished_jobs; Backend/Cleanup cleanup_jobs.
--   Backend/Trace is the step relation of these transactions but the two that delete jobs, the cleanup
--   and the replacement of a named job (replace_named), which Backend/Kept adds. Backend/Walks and
--   Backend/WalkEnds hold proofs about the walk over ancestors, Backend/Whole and Backend/Counted
--   about the tables that a completion meets; Backend/Repaired, Backend/Repairs, Backend/Swept and
--   Backend/Sweeping about the sweep, Backend/Deleted and Backend/Cleaned about the cleanup.
-- Worker: src/sqlery/core/worker.py. Worker has _should_retry, the delays and the completions;
--   Worker/Child _retry_job, run_job_in_child and persist_outcome, with the connection that may be
--   lost before or after a commit; Worker/Stale a round of cleanup_stale_jobs. Worker/Once,
--   Worker/HandOver, Worker/Retries and Worker/Sweep hold proofs.
-- Schedule: src/sqlery/core/scheduler.py and the scheduled tasks of backend.py: the next run of a cron
--   task, its advance in both strategies and the enqueue. Schedule/NextRun and Schedule/Once hold
--   proofs, the second with overlapping leaders as a step relation.
-- Leases: the scheduler leases of backend.py: claiming with the row lock and by compare-and-swap,
--   renewing and releasing; Leases/System is the step relation of daemons that see a clock.
-- Partitions: src/sqlery/core/partitioning.py. Partitions has ensure_live_partitions, Partitions/Reclaim
--   reclaim_drained_live_partitions on a table that other sessions insert into. Partitions/Ahead,
--   Partitions/Kept and Partitions/Drained hold proofs, and Partitions/Covers, Partitions/Steps and
--   Partitions/Rows what they need.
-- Staging: the staging of far-future jobs in create_job of backend.py, and their promotion in
--   src/sqlery/core/scheduler.py, on rows that are dictionaries. Staging/Promotion holds proofs.
-- Triggers: src/sqlery/core/triggers.py and src/sqlery/core/signature.py: handle with its addresses, its
--   signature and the decision; Triggers/Cache the idempotency cache, Triggers/Dispatch the actions.
--   Triggers/Accepts, Triggers/Replay and Triggers/Holds hold proofs.
-- Pool: src/sqlery/core/pool.py: the settings and the decisions between jobs; Pool/Frames the frames
--   on a pipe. Pool/RoundTrip and Pool/Channel hold proofs.
--
-- How the parts interact. A producer writes a job row and its ready entry in one transaction; the
-- entry goes into the slot that the writer of Rotation read under the generation lock. A claim deletes
-- the entry, reads the job row under its lock and inserts an attempt: the row is not written, and a
-- queued row with an open attempt is a running job. A completion closes the attempt that its handle
-- names and moves the row into history, in one transaction; a failure with the marker of Retry stays
-- in the live table until its retry exists. Backend/Release judges blocked jobs with Ready over the
-- live rows and history together.
--
-- How Python is read. A transaction is a function from tables to tables; one that rolls back, or ends
-- in an exception, returns the tables as they were, and an error is a value (Completion, Finish,
-- Start). What other transactions hold (row locks, advisory locks) is an argument. Ids, times and
-- tokens are natural numbers; uuids and datetimes are only compared. Columns that no modelled decision
-- reads (error text, traceback, results, durations) are left out. The proofs about the tables go
-- through Backend/Effect, which names the kinds of change; Backend/Made, Backend/Recorded,
-- Backend/Requeued, Backend/Stopped and Backend/Turned take the transactions apart into those, and
-- Backend/OneAttempt and Backend/Fencing hold the invariants.
--
-- Fuel and bounds. The walk along a retry chain has the source's own limit of 1000 hops as its fuel;
-- the tick has the source's limit of steps. The scan's `while True` runs on fuel, for which any number
-- above that of the ready entries is enough; the work list of release_dependents on fuel, for which two
-- more than the live rows is enough. The retry loop of Retry/Budget runs on the budget itself.
-- Printing a number runs on the number plus one, which no count of decimal digits exceeds. The walk
-- over ancestors runs on fuel, for which any number above that of the rows of both job tables is
-- enough; reading and writing on a pipe run on the number of bytes, since a call moves at least one.
-- The batches of cleanup_jobs run on fuel, for which any number above that of the rows of history that
-- match the policy is enough. The sweep gives release_dependents the live rows plus two as its fuel.
-- is_connection_lost runs on fuel, for which any number above that of the exceptions is enough; the
-- `while True` of _with_reconnect on fuel, for which more than the number of a final round is enough.
-- The iterations of calculate_next_run, and those of ensure_live_partitions, are the source's caps.
--
-- Parameters: what PostgreSQL answers to the statements on a partition, the intervals as they are
-- parsed, the serializer and the system calls on a pipe, the next occurrence of a cron expression
-- (crontab.py, a copy of another library), HMAC, SHA-256, int() and the parser of addresses behind a
-- trigger, the backend that a trigger calls, the function that is tried again, the columns of the job
-- table and the defaults of its model, the result of a task, the random jitter, and whether a
-- connection is lost at a write.
--
-- Not modelled: that a scan, a completion or the replacement of a named job releases dependents after
-- its own transaction; the name by which live rows are replaced; cleanup by the TTL of a job and by
-- count, and statistics; what becomes of a retry that is staged (the tables of Worker stay as they
-- are), and a retry that replaces a live row of its name; threads of one process that interleave
-- inside a request; the loop over the due tasks; the execution of a task with its timeout and
-- callbacks; the asynchronous twins; the Django mode; worker processes, daemons, command lines,
-- dashboards and migrations, which are I/O around these decisions.
pub mod Prelude
pub mod Rotation
pub mod Retry
pub mod Ready
pub mod Reconnect
pub mod Attempts
pub mod Backend
pub mod Leases
pub mod Partitions
pub mod Pool
pub mod Schedule
pub mod Staging
pub mod Triggers
pub mod Worker
