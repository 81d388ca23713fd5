-- ===== src/Backend/Claims.antt =====
-- What a claim requires and what it leaves.
use sqlery.Prelude.{
  sym, not, if◌then◌else◌, ◌++◌, [], ◌&&◌, ◌∷◌, List, ℕ, ◌≤◌, arith, Bool-cases, inl, inr, ◌==◌,
  ◌≡◌, subst, none, some, true, false, Option, refl,
}
use sqlery.Attempts.{
  is_open, Attempt, open_attempt_exists, new_attempt, AttemptHandle, count_where, is_exact,
  claim_verdict,
}
use sqlery.Attempts.Close.{count_where-append}
use sqlery.Backend.{
  not, select_where, open_attempt, first, is_queued, [], List, Job, Db, Claimer, Start, restore,
  keep, claimed, judge_row, start_attempt, insert_attempt, is_running, delete_ready, ready_count,
}
use sqlery.Backend.Claim.{settle_start, atomic_claim_job}
use sqlery.Backend.OneAttempt.{IsValid, IsNumbered}
use sqlery.Ready.{is_queued}

module _ (c : Claimer) (job : Job) where
  judge_row-running :
      (row : Job) (s : Db) (before : Db)
      → is_running job.id s ≡ true
      → (settle_start before s (judge_row c job row s)).0 ≡ none
  unfolding claim_verdict
  judge_row-running row s before running = ground arith

  settled-running :
      (found : Option Job) (s before : Db)
      → is_running job.id s ≡ true
      → (settle_start before s (elim found [ none ↦ restore | some row ↦ judge_row c job row s ])).0
        ≡ none
  settled-running none s before running = refl
  settled-running (some row) s before running = judge_row-running row s before running

  -- While an attempt of the job is open, no claim gets a handle for it.
  atomic_claim_job-running :
      (s : Db) → is_running job.id s ≡ true → (atomic_claim_job c job s).0 ≡ none
  unfolding atomic_claim_job start_attempt
  atomic_claim_job-running s running = elim (Bool-cases (ready_count job.id s == 0)) [
    | inl y ↦ rw y refl
    | inr n ↦ rw n (settled-running _ (delete_ready job.id s) s running)
  ]

-- What a claim read and what it wrote: a queued row with the version that the claimer read and no
-- open attempt; the entry is gone, the job row unchanged, and the handle matches one open attempt.
pub record IsClaim (c : Claimer) (job : Job) (s : Db) (h : AttemptHandle) (t : Db) : Type 0 where
  pub row : Job
  pub read :
      first (
        select_where
          (λ r. (r.id == job.id) && (r.created_at == job.created_at) && not (c.row_locked r.id))
          s.live)
      ≡ some row
  pub queued : is_queued row.status ≡ true
  pub version_same : row.version ≡ job.version
  pub entry_taken : 1 ≤ ready_count job.id s
  pub was_idle : is_running job.id s ≡ false
  pub runs : is_running job.id t ≡ true
  pub live_same : t.live ≡ s.live
  pub history_same : t.history ≡ s.history
  pub entry_gone : t.ready ≡ (delete_ready job.id s).ready
  pub of_job : h.job_id ≡ job.id
  pub matched : count_where (is_exact h) t.attempts ≡ 1

open_attempt_exists-last :
    (j : ℕ) (a : Attempt) (as_ : List Attempt)
    → ((a.job_id == j) && is_open a) ≡ true
    → open_attempt_exists j (as_ ++ a ∷ []) ≡ true
unfolding open_attempt_exists
open_attempt_exists-last j a [] e = ground arith
open_attempt_exists-last j a (b ∷ as_) e = ground (arith, open_attempt_exists-last j a as_ e)

fresh-unmatched :
    (h : AttemptHandle) (n : ℕ) (as_ : List Attempt)
    → h.id ≡ n
    → IsNumbered n as_
    → count_where (is_exact h) as_ ≡ 0
unfolding count_where
fresh-unmatched h n [] e nums = refl
fresh-unmatched h n (a ∷ as_) e nums = ground (arith, fresh-unmatched h n as_ e nums.1, nums.0)

module _ (c : Claimer) (job : Job) (s : Db) (v : IsValid s) where
  insert_attempt-runs : is_running job.id (insert_attempt c job.id s) ≡ true
  unfolding new_attempt
  insert_attempt-runs = open_attempt_exists-last job.id _ s.attempts (ground arith)

  insert_attempt-matched :
      (h : AttemptHandle)
      → h.id ≡ s.next_attempt
      → h.token ≡ c.token
      → count_where (is_exact h) (insert_attempt c job.id s).attempts ≡ 1
  unfolding new_attempt count_where
  insert_attempt-matched h e f = ground (
    arith,
    count_where-append (is_exact h) s.attempts
        (new_attempt s.next_attempt job.id c.token c.worker_id c.worker_pid c.now ∷ []),
    fresh-unmatched h s.next_attempt s.attempts e v.numbered,
  )

-- The parts of a verdict that let the claim through.
record IsVerdict (c : Claimer) (job row : Job) (s : Db) (h : AttemptHandle) (t : Db) : Type 0 where
  queued : is_queued row.status ≡ true
  version_same : row.version ≡ job.version
  was_idle : is_running job.id s ≡ false
  handle : h ≡ (open_attempt c job.id s).0
  inserted : t ≡ insert_attempt c job.id s

judge_row-IsVerdict :
    (c : Claimer) (job row : Job) (s t : Db) (h : AttemptHandle)
    → judge_row c job row s ≡ claimed h t
    → IsVerdict c job row s h t
unfolding claim_verdict
judge_row-IsVerdict c job row s t h e = record {
  queued = ground arith;
  version_same = ground arith;
  was_idle = ground arith;
  handle = ground arith;
  inserted = ground arith;
}

settle_start-claimed :
    (before after : Db) (out : Start) (h : AttemptHandle) (t : Db)
    → settle_start before after out ≡ (some h, t)
    → out ≡ claimed h t
settle_start-claimed before after restore h t e = ground arith
settle_start-claimed before after keep h t e = ground arith
settle_start-claimed before after (claimed h' t') h t e = ground arith

module _ (c : Claimer) (job : Job) (s : Db) (v : IsValid s) (h : AttemptHandle) (t : Db) where
  row_IsClaim :
      (row : Job)
      → first (
          select_where
            (λ r. (r.id == job.id) && (r.created_at == job.created_at) && not (c.row_locked r.id))
            s.live)
        ≡ some row
      → 1 ≤ ready_count job.id s
      → IsVerdict c job row (delete_ready job.id s) h t
      → IsClaim c job s h t
  row_IsClaim row found some_entry verdict = subst (IsClaim c job s h) (sym verdict.inserted) (
      subst (λ g. IsClaim c job s g (insert_attempt c job.id (delete_ready job.id s)))
        (sym verdict.handle)
        (record {
          row = row;
          read = found;
          queued = verdict.queued;
          version_same = verdict.version_same;
          entry_taken = some_entry;
          was_idle = verdict.was_idle;
          runs = insert_attempt-runs c job s v;
          live_same = refl;
          history_same = refl;
          entry_gone = refl;
          of_job = refl;
          matched = insert_attempt-matched c job s v (open_attempt c job.id s).0 refl refl;
        }))

  found_IsClaim :
      (found : Option Job)
      → first (
          select_where
            (λ r. (r.id == job.id) && (r.created_at == job.created_at) && not (c.row_locked r.id))
            s.live)
        ≡ found
      → 1 ≤ ready_count job.id s
      → (elim found [ none ↦ restore | some row ↦ judge_row c job row (delete_ready job.id s) ])
        ≡ claimed h t
      → IsClaim c job s h t
  found_IsClaim none f n e = cc
  found_IsClaim (some row) f n e =
      row_IsClaim row f n (judge_row-IsVerdict c job row (delete_ready job.id s) t h e)

  start_IsClaim :
      1 ≤ ready_count job.id s
      → start_attempt c job (delete_ready job.id s) ≡ claimed h t
      → IsClaim c job s h t
  unfolding start_attempt
  start_IsClaim n e = found_IsClaim _ refl n e

  -- On valid tables, a claim that returns a handle took the job's entry, read its row as queued, with
  -- the version that the claimer had seen and no open attempt, left the job rows as they were, and
  -- made the job a running one with exactly one open attempt that the handle closes.
  pub atomic_claim_job-IsClaim : atomic_claim_job c job s ≡ (some h, t) → IsClaim c job s h t
  unfolding atomic_claim_job
  atomic_claim_job-IsClaim e = elim (Bool-cases (ready_count job.id s == 0)) [
    | inl y ↦ ground arith
    | inr n ↦ start_IsClaim (ground arith) (
        settle_start-claimed s (delete_ready job.id s) _ h t (
          subst
            (λ b.
              (if b
                then (none, s)
                else settle_start s (delete_ready job.id s)
                    (start_attempt c job (delete_ready job.id s)))
              ≡ (some h, t))
            n e))
  ]
