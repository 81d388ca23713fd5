-- ===== src/Ready/Throttle.antt =====
-- core/ready.py, Throttle: something runs at most once per interval. Times are those of the
-- monotonic clock; `now - last < interval` is read as `now < last + interval`.
use sqlery.Prelude.{
  subst, sym, ◌↔◌, ℕ, ◌+◌, ◌≤◌, ◌<◌, ◌≡◌, Bool, true, false, Option, none, some, List, [], ◌∷◌, ltb,
  ◌==◌, if◌then◌else◌, arith, Bool-cases, inl, inr,
}

pub record Throttle : Type 0 where
  pub interval : ℕ
  pub last : Option ℕ

abbrev too_early : Throttle → ℕ → Bool
too_early t now = elim t.last [ none ↦ false | some l ↦ ltb now (l + t.interval) ]

unfoldable pub due : Throttle → (now : ℕ) → Bool × Throttle
due t now =
    if t.interval == 0
    then (false, t)
    else if too_early t now
    then (false, t)
    else (true, record t { last = some now })

-- The times, of those at which `due` is asked, at which it says yes.
unfoldable pub runs : Throttle → List ℕ → List ℕ
runs t [] = []
runs t (now ∷ times) =
    let rest = runs (due t now).1 times in if (due t now).0 then now ∷ rest else rest

-- Each time is at least `interval` after the one before it, the first after `last`.
abbrev pub IsSpaced : (interval : ℕ) → Option ℕ → List ℕ → Type 0
IsSpaced interval last [] = Unit
IsSpaced interval none (t ∷ ts) = IsSpaced interval (some t) ts
IsSpaced interval (some l) (t ∷ ts) = (l + interval ≤ t) × IsSpaced interval (some t) ts

-- An interval has passed since the last run, or there was none.
abbrev pub Passed : (interval : ℕ) → Option ℕ → ℕ → Type 0
Passed interval none now = Unit
Passed interval (some l) now = l + interval ≤ now

IsSpaced-step :
    (interval : ℕ) (last : Option ℕ) (now : ℕ) (ts : List ℕ)
    → Passed interval last now
    → IsSpaced interval (some now) ts
    → IsSpaced interval last (now ∷ ts)
IsSpaced-step interval none now ts h s = s
IsSpaced-step interval (some l) now ts h s = (h, s)

due_early : (t : Throttle) (now : ℕ) → (due t now).0 ≡ false → (due t now).1 ≡ t
unfolding due
due_early t now h = ground arith

due_late :
    (t : Throttle) (now : ℕ) → (due t now).0 ≡ true → (due t now).1 ≡ record t { last = some now }
unfolding due
due_late t now h = ground arith

due-Passed_to :
    (interval : ℕ) (last : Option ℕ) (now : ℕ)
    → (due (record { interval = interval; last = last }) now).0 ≡ true
    → Passed interval last now
unfolding due
due-Passed_to interval none now h = tt
due-Passed_to interval (some l) now h = ground arith

Passed-due :
    (interval : ℕ) (last : Option ℕ) (now : ℕ)
    → 0 < interval
    → Passed interval last now
    → (due (record { interval = interval; last = last }) now).0 ≡ true
unfolding due
Passed-due interval none now pos h = ground arith
Passed-due interval (some l) now pos h = ground arith

runs_due :
    (t : Throttle) (now : ℕ) (times : List ℕ)
    → (due t now).0 ≡ true
    → runs t (now ∷ times) ≡ now ∷ runs (record t { last = some now }) times
unfolding runs
runs_due t now times h = rw (h, due_late t now h)

runs_early :
    (t : Throttle) (now : ℕ) (times : List ℕ)
    → (due t now).0 ≡ false
    → runs t (now ∷ times) ≡ runs t times
unfolding runs
runs_early t now times h = rw (h, due_early t now h)

-- However often it is asked, the first run is an interval after the last one on record, and any
-- two runs are at least an interval apart.
runs-IsSpaced : (t : Throttle) (times : List ℕ) → IsSpaced t.interval t.last (runs t times)
unfolding runs
runs-IsSpaced t [] = tt
runs-IsSpaced t (now ∷ times) = elim (Bool-cases (due t now).0) [
  | inl now_due ↦ subst (IsSpaced t.interval t.last) (sym (runs_due t now times now_due)) (
      IsSpaced-step t.interval t.last now (runs (record t { last = some now }) times)
        (due-Passed_to t.interval t.last now now_due)
        (runs-IsSpaced (record t { last = some now }) times))
  | inr not_now ↦
      subst (IsSpaced t.interval t.last) (sym (runs_early t now times not_now))
        (runs-IsSpaced t times)
]

-- With a positive interval it says yes exactly when an interval has passed since the last run, or
-- there was none.
due-Passed :
    (t : Throttle) (now : ℕ)
    → 0 < t.interval
    → ((due t now).0 ≡ true) ↔ Passed t.interval t.last now
due-Passed t now pos = (due-Passed_to t.interval t.last now, Passed-due t.interval t.last now pos)
