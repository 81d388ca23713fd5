-- ===== src/Backend/Shorter.antt =====
-- The live rows that a recheck leaves.
use sqlery.Prelude.{
  ◌&&◌, codes, ap, ℕ, ◌+◌, ◌≤◌, ◌≡◌, Bool, true, false, not, Option, none, some, List, [], ◌∷◌,
  ◌==◌, arith, length, refl, ◌||◌, Bool-cases, inl, inr, subst, sym, ==_iff,
}
use sqlery.Backend.{Job, Db, select_where, first, delete_ready, delete_blocked, is_running}
use sqlery.Backend.Finish.{Values, Fences, finish_in, finish_rows, fences_hold, status_matches}
use sqlery.Backend.Release.{Recheck, recheck_blocked, fail_queued, apply_verdict, write_ready}
use sqlery.Backend.Requeued.{failed_with, recheck_found}
use sqlery.Ready.{Status, is_queued, State}

length-split :
    (test : Job → Bool) (xs : List Job)
    → length (select_where test xs) + length (select_where (λ x. not (test x)) xs) ≡ length xs
length-split test [] = omega arith
length-split test (x ∷ xs) = ground (arith, length-split test xs)

-- A row that one test finds and another accepts is selected by the other.
found-selected :
    (test other : Job → Bool) (xs : List Job) (row : Job)
    → first (select_where test xs) ≡ some row
    → other row ≡ true
    → 1 ≤ length (select_where other xs)
found-selected test other [] row e h = cc
found-selected test other (x ∷ xs) row e h = elim (Bool-cases (test x)) [
  | inl y ↦
      let same : x ≡ row = ground arith in
      let kept : other x ≡ true = subst (λ r. other r ≡ true) (sym same) h in ground arith
  | inr n ↦ ground (arith, found-selected test other xs row (ground arith) h)
]

queued-matches :
    (s : Status) → is_queued s ≡ true → status_matches (some (Status.queued ∷ [])) s ≡ true
queued-matches Status.queued h = refl
queued-matches Status.running h = cc
queued-matches Status.shutting_down h = cc
queued-matches Status.success h = cc
queued-matches Status.failed h = cc
queued-matches Status.archived h = cc

-- What an outcome adds to the work list.
abbrev pub cost : Recheck → ℕ
cost Recheck.failed = 1
cost _ = 0

-- A move takes a row out of the live table, and one whose fences hold for a row is not refused.
finish_rows-length :
    (s : Db) (j : ℕ) (f : Fences) (status : Status) (values : Values) (now : ℕ) (rows : List Job)
    (before : Db) (job : Job)
    → select_where (fences_hold s j f) s.live ≡ rows
    → 1 ≤ length rows
    → s.live ≡ before.live
    → cost (failed_with job before (finish_rows s j f status values now rows)).0
        + length (failed_with job before (finish_rows s j f status values now rows)).1.live
      ≤ length before.live
finish_rows-length s j f status values now [] before job e some_row live = absurd (omega arith)
finish_rows-length s j f status values now (x ∷ y ∷ rows) before job e some_row live = omega arith
finish_rows-length s j f status values now (x ∷ []) before job e some_row live =
    omega (arith, length-split (fences_hold s j f) s.live, ap length e, ap length live)

abbrev waiting_fences : Job → Fences
waiting_fences job = record {
  created_at = some job.created_at;
  expected_version = none;
  require_status = some (Status.queued ∷ []);
  require_idle = true;
}

abbrev dropped : Job → Db → Db
dropped job s = delete_blocked job.id (delete_ready job.id s)

fences_hold-waiting :
    (job : Job) (s : Db)
    → is_queued job.status ≡ true
    → is_running job.id s ≡ false
    → fences_hold (dropped job s) job.id (waiting_fences job) job ≡ true
fences_hold-waiting job s queued idle = ground (arith, queued-matches job.status queued)

fail_queued-length :
    (job : Job) (now : ℕ) (s : Db) (test : Job → Bool)
    → first (select_where test s.live) ≡ some job
    → is_queued job.status ≡ true
    → is_running job.id s ≡ false
    → cost (failed_with job s (fail_queued job (codes "dependency_failed") now s)).0
        + length (failed_with job s (fail_queued job (codes "dependency_failed") now s)).1.live
      ≤ length s.live
unfolding fail_queued finish_in
fail_queued-length job now s test found queued idle =
    finish_rows-length (dropped job s) job.id (waiting_fences job) Status.failed
      (record { termination_reason = some (codes "dependency_failed"); finished_at = some now }) now
      (select_where (fences_hold (dropped job s) job.id (waiting_fences job)) s.live) s job refl
      (found-selected test (fences_hold (dropped job s) job.id (waiting_fences job)) s.live job
        found (fences_hold-waiting job s queued idle))
      refl

live-write_ready : (slot : ℕ) (job : Job) (s : Db) → (write_ready slot job s).live ≡ s.live
unfolding write_ready
live-write_ready slot job s = ground arith

apply_verdict-length :
    (slot : ℕ) (job : Job) (now : ℕ) (v : State) (s : Db) (test : Job → Bool)
    → first (select_where test s.live) ≡ some job
    → is_queued job.status ≡ true
    → is_running job.id s ≡ false
    → cost (apply_verdict slot job now v s).0 + length (apply_verdict slot job now v s).1.live
      ≤ length s.live
apply_verdict-length slot job now State.pending s test found queued idle = omega arith
apply_verdict-length slot job now State.failed s test found queued idle =
    fail_queued-length job now s test found queued idle
apply_verdict-length slot job now State.met s test found queued idle =
    omega (arith, ap length (live-write_ready slot job (delete_blocked job.id s)))

passes :
    (test : Job → Bool) (xs : List Job) (row : Job)
    → first (select_where test xs) ≡ some row
    → test row ≡ true
passes test [] row e = cc
passes test (x ∷ xs) row e = elim (Bool-cases (test x)) [
  | inl y ↦ let same : x ≡ row = ground arith in subst (λ r. test r ≡ true) same y
  | inr n ↦ passes test xs row (ground arith)
]

recheck_found-length :
    (slot j created_at now : ℕ) (s : Db) (row : Option Job)
    → first (select_where (λ job. (job.id == j) && (job.created_at == created_at)) s.live) ≡ row
    → cost (recheck_found slot j now s row).0 + length (recheck_found slot j now s row).1.live
      ≤ length s.live
recheck_found-length slot j created_at now s none found = omega arith
recheck_found-length slot j created_at now s (some job) found =
    elim (Bool-cases (not (is_queued job.status) || is_running j s)) [
      | inl y ↦ rw y (omega arith)
      | inr n ↦
          let test : Job → Bool = λ job'. (job'.id == j) && (job'.created_at == created_at) in
          let mine : (job.id == j) ≡ true = ground (arith, passes test s.live job found) in
          let idle : is_running job.id s ≡ false =
            subst (λ i. is_running i s ≡ false) (sym ((==_iff job.id j).0 mine)) (ground arith) in
          rw n (apply_verdict-length slot job now _ s test found (ground arith) idle)
    ]

-- A recheck leaves no more live rows, and one fewer if it fails the job.
pub recheck_blocked-length :
    (slot j created_at now : ℕ) (s : Db)
    → cost (recheck_blocked slot j created_at now s).0
        + length (recheck_blocked slot j created_at now s).1.live
      ≤ length s.live
unfolding recheck_blocked
recheck_blocked-length slot j created_at now s = recheck_found-length slot j created_at now s _ refl
