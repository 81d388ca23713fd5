-- ===== src/Backend/Fencing.antt =====
-- The handles of claims, and the completions that present them.
use sqlery.Prelude.{
  none, ◌∙◌, sym, inr, subst, inl, Bool-cases, false, true, some, ℕ, ◌≡◌, Option, List, [], ◌∷◌,
  ◌<◌, arith, refl,
}
use sqlery.Attempts.{
  close_exact, new_attempt, Outcome, AttemptHandle, Attempt, count_where, is_exact, decide_close,
}
use sqlery.Attempts.Close.{is_exact-close_exact, is_exact-close_le, count_where-append}
use sqlery.Backend.{none, some, false, true, Db, Claimer, close_attempt}
use sqlery.Backend.Complete
use sqlery.Backend.Complete.{
  opened_attempt, record_status, Completion, rejected, recorded, fenced_update,
}
use sqlery.Backend.Effect.{
  Effect, Effects, Closes, entries, start, close, move, mark, add, done, after,
}
use sqlery.Backend.Finish.{Values}
use sqlery.Backend.OneAttempt.{IsValid, IsNumbered}
use sqlery.Backend.Recorded.{record_status-Effects}
use sqlery.Backend.Trace
use sqlery.Backend.Trace.{Reach, step, Step-Effects}
use sqlery.Ready.{Status}

-- No open attempt has the id and token of the handle, and its id is not given again.
pub record IsRetired (h : AttemptHandle) (s : Db) : Type 0 where
  pub unmatched : count_where (is_exact h) s.attempts ≡ 0
  pub taken : h.id < s.next_attempt

is_exact-new :
    (h : AttemptHandle) (c : Claimer) (j n : ℕ)
    → h.id < n
    → count_where (is_exact h) (new_attempt n j c.token c.worker_id c.worker_pid c.now ∷ []) ≡ 0
unfolding new_attempt count_where
is_exact-new h c j n lt = ground arith

module _ (h : AttemptHandle) where
  Closes-IsRetired : {s t : Db} → IsRetired h s → Closes s t → IsRetired h t
  Closes-IsRetired {s} {t} r c = record {
    unmatched =
        rw c.attempts_closed
          (omega (arith, r.unmatched, is_exact-close_le h c.test c.outcome c.now s.attempts));
    taken = rw c.next_same r.taken;
  }

  Effect-IsRetired : {s t : Db} → IsRetired h s → Effect s t → IsRetired h t
  Effect-IsRetired r (entries l hs a n) = record {
    unmatched = rw a r.unmatched;
    taken = rw n r.taken;
  }
  Effect-IsRetired {s} r (start c j idle lives l hs a n) = record {
    unmatched = rw a (
        omega (
          arith,
          count_where-append (is_exact h) s.attempts
              (new_attempt s.next_attempt j c.token c.worker_id c.worker_pid c.now ∷ []),
          r.unmatched,
          is_exact-new h c j s.next_attempt r.taken,
        ));
    taken = rw n (omega (arith, r.taken));
  }
  Effect-IsRetired r (close l hs c) = Closes-IsRetired r c
  Effect-IsRetired r (move j m c) = Closes-IsRetired r c
  Effect-IsRetired r (mark l hs a n) = record { unmatched = rw a r.unmatched; taken = rw n r.taken }
  Effect-IsRetired r (add job fresh l hs a n) = record {
    unmatched = rw a r.unmatched;
    taken = rw n r.taken;
  }

  pub Effects-IsRetired : {s t : Db} → IsRetired h s → Effects s t → IsRetired h t
  Effects-IsRetired r done = r
  Effects-IsRetired r (after es e) = Effect-IsRetired (Effects-IsRetired r es) e

  pub Reach-IsRetired : {s t : Db} → IsRetired h s → Reach s t → IsRetired h t
  Reach-IsRetired r Trace.start = r
  Reach-IsRetired r (step p x) = Effects-IsRetired (Reach-IsRetired r p) (Step-Effects x)

  count_where-numbered :
      (n : ℕ) (as_ : List Attempt) → IsNumbered n as_ → count_where (is_exact h) as_ ≡ 1 → h.id < n
  unfolding count_where
  count_where-numbered n [] nums e = cc
  count_where-numbered n (a ∷ as_) nums e =
      ground (arith, count_where-numbered n as_ nums.1, nums.0)

close_attempt-misses :
    (j : ℕ) (h : AttemptHandle) (o : Outcome) (now : ℕ) (s : Db)
    → decide_close (count_where (is_exact h) s.attempts) ≡ false
    → close_attempt j (some h) o now s ≡ none
unfolding close_attempt
close_attempt-misses j h o now s miss = rw miss refl

close_attempt-hits :
    (j : ℕ) (h : AttemptHandle) (o : Outcome) (now : ℕ) (s : Db)
    → decide_close (count_where (is_exact h) s.attempts) ≡ true
    → close_attempt j (some h) o now s
      ≡ some (record s { attempts = close_exact h o now s.attempts })
unfolding close_attempt
close_attempt-hits j h o now s hit = rw hit refl

-- A completion whose handle does not match exactly one open attempt is rejected.
fenced_update-rejected :
    (j : ℕ) (version : Option ℕ) (status : Status) (values : Values) (h : AttemptHandle)
    (o : Outcome) (now : ℕ) (s : Db)
    → decide_close (count_where (is_exact h) s.attempts) ≡ false
    → fenced_update j version status values (some h) o now s ≡ rejected
unfolding fenced_update
fenced_update-rejected j version status values h o now s miss =
    rw (fenced_update, close_attempt-misses j h o now s miss) refl

module _ (j : ℕ) (version : Option ℕ) (status : Status) (values : Values) (h : AttemptHandle)
    (o : Outcome) (now : ℕ) (s : Db) where
  pub fenced_update-closes :
      decide_close (count_where (is_exact h) s.attempts) ≡ true
      → fenced_update j version status values (some h) o now s
        ≡ record_status j version status values
            (opened_attempt j s)
            now
            (record s { attempts = close_exact h o now s.attempts })
  unfolding fenced_update
  fenced_update-closes hit = rw (fenced_update, close_attempt-hits j h o now s hit) refl

  recorded-matched :
      (t : Db)
      → fenced_update j version status values (some h) o now s ≡ recorded t
      → decide_close (count_where (is_exact h) s.attempts) ≡ true
  recorded-matched t e = elim (Bool-cases (decide_close (count_where (is_exact h) s.attempts))) [
    | inl y ↦ y
    | inr n ↦ let no = fenced_update-rejected j version status values h o now s n in cc
  ]

  -- A recorded completion retires its handle.
  pub recorded-IsRetired :
      (t : Db)
      → IsValid s
      → fenced_update j version status values (some h) o now s ≡ recorded t
      → IsRetired h t
  recorded-IsRetired t v e =
      let hit = recorded-matched t e in
      let closed = record s { attempts = close_exact h o now s.attempts } in
      let retired : IsRetired h closed = record {
        unmatched = is_exact-close_exact h o now s.attempts;
        taken = count_where-numbered h s.next_attempt s.attempts v.numbered (ground arith);
      } in
      subst (λ c. IsRetired h (Complete.after closed c)) (sym (fenced_update-closes hit) ∙ e)
        (Effects-IsRetired h retired (
          record_status-Effects closed closed done j version status values (opened_attempt j s)
            now))

-- After a completion with a handle is recorded on valid tables, every later completion with that handle is rejected,
-- whatever transactions come between.
pub fenced_update-once :
    (j : ℕ) (version : Option ℕ) (status : Status) (values : Values) (h : AttemptHandle)
    (o : Outcome) (now : ℕ) (s t u : Db)
    → IsValid s
    → fenced_update j version status values (some h) o now s ≡ recorded t
    → Reach t u
    → (j' : ℕ) (version' : Option ℕ) (status' : Status) (values' : Values) (o' : Outcome) (now' : ℕ)
    → fenced_update j' version' status' values' (some h) o' now' u ≡ rejected
fenced_update-once j version status values h o now s t u v e r j' version' status' values' o' now' =
    let retired =
      Reach-IsRetired h (recorded-IsRetired j version status values h o now s t v e) r in
    fenced_update-rejected j' version' status' values' h o' now' u
      (ground (arith, retired.unmatched))
