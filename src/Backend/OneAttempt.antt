-- ===== src/Backend/OneAttempt.antt =====
-- The invariant of the tables, and that each kind of change keeps it.
use sqlery.Prelude.{
  ==_iff, subst, inr, inl, ◌==◌, Bool-cases, if◌then◌else◌, ℕ, ◌+◌, ◌≤◌, ◌<◌, ◌≡◌, refl, Bool, true,
  false, List, [], ◌∷◌, ◌++◌, arith, All,
}
use sqlery.Attempts.{Attempt, Outcome, update_where, closed, new_attempt, count_where, is_open_for}
use sqlery.Attempts.Close.{open_count, open_count-close_le, count_where-append}
use sqlery.Backend.{Job, Db, Claimer}
use sqlery.Backend.Effect.{
  Closes, Effect, entries, start, close, move, mark, add, Effects, done, after,
}
use sqlery.Backend.Places.{rows_of, places, rows_of-append, IsMove}

abbrev pub IsNumbered : ℕ → List Attempt → Type 0
IsNumbered next = All (λ a. a.id < next)

-- A job stands at most once in the live table and history together; an open attempt belongs to a
-- live job, and to one job at most one is open; attempt ids are below the next one.
pub record IsValid (db : Db) : Type 0 where
  pub one_place : (j : ℕ) → places j db ≤ 1
  pub open_live : (j : ℕ) → open_count j db.attempts ≤ rows_of j db.live
  pub numbered : IsNumbered db.next_attempt db.attempts

IsNumbered-update :
    (n : ℕ) (test : Attempt → Bool) (now : ℕ) (o : Outcome) (as_ : List Attempt)
    → IsNumbered n as_
    → IsNumbered n (update_where test (closed now o) as_)
unfolding update_where
IsNumbered-update n test now o [] h = tt
IsNumbered-update n test now o (a ∷ as_) h =
    (ground (arith, h.0), IsNumbered-update n test now o as_ h.1)

IsNumbered-snoc :
    (n : ℕ) (a : Attempt) (as_ : List Attempt)
    → IsNumbered n as_
    → a.id ≡ n
    → IsNumbered (n + 1) (as_ ++ a ∷ [])
IsNumbered-snoc n a [] h e = (omega arith, tt)
IsNumbered-snoc n a (b ∷ as_) h e = (omega (arith, h.0), IsNumbered-snoc n a as_ h.1 e)

-- A new attempt counts for its own job alone.
open_count-new :
    (c : Claimer) (j n k : ℕ) (as_ : List Attempt)
    → open_count k (as_ ++ new_attempt n j c.token c.worker_id c.worker_pid c.now ∷ [])
      ≡ open_count k as_ + (if j == k then 1 else 0)
unfolding new_attempt count_where
open_count-new c j n k as_ = ground (
  arith,
  count_where-append (is_open_for k) as_
      (new_attempt n j c.token c.worker_id c.worker_pid c.now ∷ []),
)

open_live-start :
    (s : Db) (c : Claimer) (j : ℕ)
    → IsValid s
    → open_count j s.attempts ≡ 0
    → 1 ≤ rows_of j s.live
    → (k : ℕ)
    → open_count k
        (s.attempts ++ new_attempt s.next_attempt j c.token c.worker_id c.worker_pid c.now ∷ [])
      ≤ rows_of k s.live
open_live-start s c j v idle lives k = elim (Bool-cases (j == k)) [
  | inl same ↦
      subst
        (λ n.
          open_count n
            (s.attempts ++ new_attempt s.next_attempt j c.token c.worker_id c.worker_pid c.now ∷ [])
          ≤ rows_of n s.live)
        ((==_iff j k).0 same) (ground (arith, open_count-new c j s.next_attempt j s.attempts))
  | inr other ↦ ground (arith, open_count-new c j s.next_attempt k s.attempts, v.open_live k)
]

open_live-move :
    (s t : Db) (j : ℕ)
    → IsValid s
    → IsMove j s t
    → (k : ℕ) → open_count k t.attempts ≤ rows_of k t.live
open_live-move s t j v m k = elim (Bool-cases (j == k)) [
  | inl same ↦ ground (arith, m.closes k)
  | inr other ↦ ground (arith, m.closes k, m.live_left k other, v.open_live k)
]

Closes-open :
    (s t : Db) (c : Closes s t) (k : ℕ) → open_count k t.attempts ≤ open_count k s.attempts
Closes-open s t c k = rw c.attempts_closed (open_count-close_le c.test c.now c.outcome k s.attempts)

Closes-IsNumbered :
    (s t : Db)
    → Closes s t
    → IsNumbered s.next_attempt s.attempts
    → IsNumbered t.next_attempt t.attempts
Closes-IsNumbered s t c h =
    rw (c.attempts_closed, c.next_same)
      (IsNumbered-update s.next_attempt c.test c.now c.outcome s.attempts h)

rows_of-one : (job : Job) (j : ℕ) → rows_of j (job ∷ []) ≤ 1
unfolding rows_of
rows_of-one job j = ground arith

row_is_mine : (job : Job) (k : ℕ) → (job.id == k) ≡ true → job.id ≡ k
row_is_mine job k h = (==_iff job.id k).0 h

rows_of-none : (job : Job) (k : ℕ) → (job.id == k) ≡ false → rows_of k (job ∷ []) ≡ 0
unfolding rows_of
rows_of-none job k h = ground arith

one_place-add :
    (s t : Db) (job : Job)
    → IsValid s
    → places job.id s ≡ 0
    → t.live ≡ s.live ++ job ∷ []
    → t.history ≡ s.history
    → (k : ℕ) → places k t ≤ 1
one_place-add s t job v fresh l h k =
    rw (l, h, rows_of-append k s.live (job ∷ []))
      (elim (Bool-cases (job.id == k)) [
        | inl same ↦
            omega
              (arith, rows_of-one job k, subst (λ n. places n s ≡ 0) (row_is_mine job k same) fresh)
        | inr other ↦ omega (arith, rows_of-none job k other, v.one_place k)
      ])

id-new_attempt :
    (c : Claimer) (j n : ℕ) → (new_attempt n j c.token c.worker_id c.worker_pid c.now).id ≡ n
unfolding new_attempt
id-new_attempt c j n = refl

-- Each kind of change keeps the invariant.
pub IsValid-Effect : {s t : Db} → IsValid s → Effect s t → IsValid t
IsValid-Effect {s} {t} v (entries l h a n) = record {
  one_place = λ k. rw (l, h) (v.one_place k);
  open_live = λ k. rw (l, a) (v.open_live k);
  numbered = rw (a, n) v.numbered;
}
IsValid-Effect {s} {t} v (start c j idle lives l h a n) = record {
  one_place = λ k. rw (l, h) (v.one_place k);
  open_live = λ k. rw (l, a) (open_live-start s c j v idle lives k);
  numbered =
      rw (a, n)
        (IsNumbered-snoc s.next_attempt
          (new_attempt s.next_attempt j c.token c.worker_id c.worker_pid c.now) s.attempts
          v.numbered (id-new_attempt c j s.next_attempt));
}
IsValid-Effect {s} {t} v (close l h c) = record {
  one_place = λ k. rw (l, h) (v.one_place k);
  open_live = λ k. rw l (omega (arith, Closes-open s t c k, v.open_live k));
  numbered = Closes-IsNumbered s t c v.numbered;
}
IsValid-Effect {s} {t} v (move j m c) = record {
  one_place = λ k. omega (arith, m.places_kept k, v.one_place k);
  open_live = open_live-move s t j v m;
  numbered = Closes-IsNumbered s t c v.numbered;
}
IsValid-Effect {s} {t} v (mark l h a n) = record {
  one_place = λ k. rw h (omega (arith, l k, v.one_place k));
  open_live = λ k. rw a (omega (arith, l k, v.open_live k));
  numbered = rw (a, n) v.numbered;
}
IsValid-Effect {s} {t} v (add job fresh l h a n) = record {
  one_place = one_place-add s t job v fresh l h;
  open_live = λ k. rw (l, a, rows_of-append k s.live (job ∷ [])) (omega (arith, v.open_live k));
  numbered = rw (a, n) v.numbered;
}

pub IsValid-Effects : {s t : Db} → IsValid s → Effects s t → IsValid t
IsValid-Effects v done = v
IsValid-Effects v (after es e) = IsValid-Effect (IsValid-Effects v es) e
