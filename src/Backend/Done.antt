-- ===== src/Backend/Done.antt =====
-- The completion that directly follows a claim.
use sqlery.Prelude.{
  ◌∙◌, ◌&&◌, ◌+◌, ap, sym, ℕ, ◌≤◌, arith, Bool, Bool-cases, inl, inr, ◌==◌, ◌≡◌, subst, some, true,
  false, refl, List, [], ◌∷◌,
}
use sqlery.Attempts.{close_exact, AttemptHandle, Outcome}
use sqlery.Attempts.Close.{open_count}
use sqlery.Backend.{Job, Db, Claimer, select_where, first}
use sqlery.Backend.Claims.{IsClaim}
use sqlery.Backend.Complete.{Completion, recorded, fenced_update}
use sqlery.Backend.Fencing.{fenced_update-closes}
use sqlery.Backend.Finish.{Fences, Values, no_fences, fences_hold, finish_in, move_job, moved}
use sqlery.Backend.OneAttempt.{IsValid}
use sqlery.Backend.Places.{places, finish_in-IsMove, rows_of}
use sqlery.Ready.{Status, is_failed}
use sqlery.Retry.{is_retry_pending}

no_row :
    (test : Job → Bool) (j : ℕ) (xs : List Job)
    → ((x : Job) → test x ≡ true → (x.id == j) ≡ true)
    → rows_of j xs ≡ 0
    → select_where test xs ≡ []
unfolding rows_of
no_row test j [] only none_left = refl
no_row test j (x ∷ xs) only none_left = ground (arith, only x, no_row test j xs only)

some_row :
    (test : Job → Bool) (j : ℕ) (xs : List Job) (row : Job)
    → ((x : Job) → test x ≡ true → (x.id == j) ≡ true)
    → select_where test xs ≡ row ∷ []
    → 1 ≤ rows_of j xs
unfolding rows_of
some_row test j [] row only e = cc
some_row test j (x ∷ xs) row only e = ground (arith, only x, some_row test j xs row only)

-- Where a job has one row, every test that the row passes selects it alone.
single :
    (test other : Job → Bool) (j : ℕ) (xs : List Job) (row : Job)
    → ((x : Job) → test x ≡ true → (x.id == j) ≡ true)
    → ((x : Job) → other x ≡ true → (x.id == j) ≡ true)
    → rows_of j xs ≤ 1
    → first (select_where test xs) ≡ some row
    → other row ≡ true
    → select_where other xs ≡ row ∷ []
unfolding rows_of
single test other j [] row only only' one_row found passes = cc
single test other j (x ∷ xs) row only only' one_row found passes = elim (Bool-cases (test x)) [
  | inl y ↦
      let same : x ≡ row = ground arith in
      let kept : other x ≡ true = subst (λ r. other r ≡ true) (sym same) passes in
      rw (kept, no_row other j xs only' (ground (arith, only x))) (ap (λ r. r ∷ []) same)
  | inr n ↦
      let rest : select_where other xs ≡ row ∷ [] =
        single test other j xs row only only' (ground arith) (ground arith) passes in
      let drops : other x ≡ false = ground (arith, only' x, some_row other j xs row only' rest) in
      rw (drops, rest) refl
]

first-passes :
    (test : Job → Bool) (xs : List Job) (row : Job)
    → first (select_where test xs) ≡ some row
    → test row ≡ true
first-passes test [] row e = cc
first-passes test (x ∷ xs) row e = elim (Bool-cases (test x)) [
  | inl y ↦ let same : x ≡ row = ground arith in subst (λ r. test r ≡ true) same y
  | inr n ↦ first-passes test xs row (ground arith)
]

-- The tables of a claim after its attempt was closed, and the fences of its completion.
abbrev closed_by : AttemptHandle → Outcome → ℕ → Db → Db
closed_by h o now t = record t { attempts = close_exact h o now t.attempts }

abbrev versioned : ℕ → Fences
versioned version = record no_fences { expected_version = some version }

-- What a completion that ends a job leaves.
pub record IsDone (j : ℕ) (t : Db) (out : Completion) : Type 0 where
  pub tables : Db
  pub is_recorded : out ≡ recorded tables
  pub left_live : rows_of j tables.live ≡ 0
  pub in_history : rows_of j tables.history ≡ rows_of j t.history + 1
  pub not_running : open_count j tables.attempts ≡ 0

module _ (c : Claimer) (job : Job) (s : Db) (v : IsValid s) (h : AttemptHandle) (t : Db)
    (cl : IsClaim c job s h t) (status : Status) (values : Values) (o : Outcome) (now : ℕ) where
  row_id : (cl.row.id == job.id) ≡ true
  row_id = ground (arith, first-passes _ s.live cl.row cl.read)

  claimed_row :
      select_where (fences_hold (closed_by h o now t) job.id (versioned job.version)) t.live
      ≡ cl.row ∷ []
  claimed_row = rw cl.live_same (
      single _ (fences_hold (closed_by h o now t) job.id (versioned job.version)) job.id s.live
        cl.row (λ x p. ground arith) (λ x p. ground arith) (omega (arith, v.one_place job.id))
        cl.read (ground (arith, cl.version_same, row_id)))

  ended : Db
  ended = move_job (closed_by h o now t) job.id (versioned job.version) status values now cl.row

  finish_in-ended :
      finish_in job.id status values (versioned job.version) now (closed_by h o now t) ≡ moved ended
  unfolding finish_in ended
  finish_in-ended = rw claimed_row refl

  fenced_update-ended :
      (is_failed status && is_retry_pending values.termination_reason) ≡ false
      → fenced_update job.id (some job.version) status values (some h) o now t ≡ recorded ended
  fenced_update-ended final =
      fenced_update-closes job.id (some job.version) status values h o now t
        (ground (arith, cl.matched))
      ∙ rw (final, finish_in-ended) refl

  -- On valid tables, a claim's completion other than with a failure to be retried, made before any
  -- other transaction, is recorded: the job leaves the live table for history, and no attempt of it is
  -- open.
  pub fenced_update-IsDone :
      (is_failed status && is_retry_pending values.termination_reason) ≡ false
      → IsDone job.id t (fenced_update job.id (some job.version) status values (some h) o now t)
  fenced_update-IsDone final =
      let m =
        finish_in-IsMove (closed_by h o now t) job.id (versioned job.version) status values now
          ended finish_in-ended in
      let same : places job.id t ≡ places job.id s = rw (cl.live_same, cl.history_same) refl in
      record {
        tables = ended;
        is_recorded = fenced_update-ended final;
        left_live = omega (arith, m.places_kept job.id, m.history_grows, v.one_place job.id, same);
        in_history = m.history_grows;
        not_running = ground (arith, m.closes job.id);
      }
