-- ===== src/Leases/Held.antt =====
-- A lease that a daemon holds, while other daemons act.
use native.Mathlib.Decide.{ℕ_discrete}
use sqlery.Prelude.{
  ◌&&◌, sym, subst, ◌||◌, ℕ, ◌+◌, ◌≤◌, ◌≡◌, ◌≢◌, false, Option, none, some, List, [], ◌∷◌, ◌++◌,
  All, arith, refl, Bool-cases, inl, inr, ltb, ◌==◌,
}
use sqlery.Leases.{
  is_before, Table, Lease, put, taken, claim_locked, claim_seen, locked_row, renewed, released,
  insert_lease, cas_update,
}
use sqlery.Leases.System.{Pending}

-- The row is a lease of `d` that does not expire before `e`.
abbrev pub IsHeld : ℕ → ℕ → Option Lease → Type 0
IsHeld d e none = ⊥
IsHeld d e (some row) = (row.daemon_id ≡ d) × (e ≤ row.expires_at)

-- The SELECT showed no lease, or one of another daemon.
abbrev pub IsForeign : ℕ → Option Lease → Type 0
IsForeign d none = Unit
IsForeign d (some row) = row.daemon_id ≢ d

-- A claim in flight on `q` by a daemon other than `d` is dated by `e` at most, and did not see its
-- own lease.
abbrev pub IsHarmless : ℕ → ℕ → ℕ → Pending → Type 0
IsHarmless q d e p = p.queue ≡ q → p.daemon ≢ d → (p.now ≤ e) × IsForeign p.daemon p.seen

put_self : (q : ℕ) (row : Option Lease) (t : Table) → put q row t q ≡ row
put_self q row t = ground arith

put-other : (q k : ℕ) (row : Option Lease) (t : Table) → k ≢ q → put q row t k ≡ t k
put-other q k row t ne = ground arith

module _ (d e : ℕ) where
  pub locked_row-IsHeld :
      (q other now secs : ℕ) (row : Option Lease) (t : Table)
      → now ≤ e
      → other ≢ d
      → IsHeld d e row
      → locked_row q other now secs row t ≡ (t, false)
  unfolding locked_row
  locked_row-IsHeld q other now secs none t le ne held = absurd held
  locked_row-IsHeld q other now secs (some row) t le ne held = ground arith

  -- The CAS of a claim that did not see its own lease fails on a row that is held.
  claim_seen-IsHeld :
      (q other now secs : ℕ) (seen row : Option Lease) (t : Table)
      → t q ≡ row
      → now ≤ e
      → IsForeign other seen
      → IsHeld d e row
      → claim_seen q other now secs seen t ≡ (t, false)
  unfolding claim_seen insert_lease cas_update
  claim_seen-IsHeld q other now secs seen none t eq le ne held = absurd held
  claim_seen-IsHeld q other now secs none (some row) t eq le ne held = rw (eq, insert_lease) refl
  claim_seen-IsHeld q other now secs (some s) (some row) t eq le ne held =
      rw (eq, cas_update) (ground arith)

  pub renewed-IsHeld :
      (other expires : ℕ) (row : Option Lease)
      → (other ≡ d → e ≤ expires)
      → IsHeld d e row
      → IsHeld d e (renewed other expires row)
  unfolding renewed
  renewed-IsHeld other expires none h held = absurd held
  renewed-IsHeld other expires (some row) h held = elim (Bool-cases (row.daemon_id == other)) [
    | inl same ↦ rw same (held.0, h (ground arith))
    | inr differs ↦ rw differs held
  ]

  pub released-IsHeld :
      (other : ℕ) (row : Option Lease) → other ≢ d → IsHeld d e row → released other row ≡ row
  unfolding released
  released-IsHeld other none ne held = absurd held
  released-IsHeld other (some row) ne held = ground arith

pub All-delete :
    (P : Pending → Type 0) (before after : List Pending) (p : Pending)
    → All P (before ++ p ∷ after)
    → P p × All P (before ++ after)
All-delete P [] after p all = all
All-delete P (x ∷ before) after p all =
    let rest = All-delete P before after p all.1 in (rest.0, (all.0, rest.1))

pub IsHeld-IsForeign :
    (d e other : ℕ) (row : Option Lease) → other ≢ d → IsHeld d e row → IsForeign other row
IsHeld-IsForeign d e other none ne held = tt
IsHeld-IsForeign d e other (some row) ne held = λ same. ne (ground arith)

module _ (q d e secs : ℕ) where
  put-IsHeld :
      (k : ℕ) (row : Option Lease) (t : Table)
      → k ≢ q
      → IsHeld d e (t q)
      → IsHeld d e (put k row t q)
  put-IsHeld k row t ne held = rw (put-other k q row t (λ same. ne (sym same))) held

  insert_lease-IsHeld :
      (k : ℕ) (lease : Lease) (t : Table) (row : Option Lease)
      → t k ≡ row
      → k ≢ q
      → IsHeld d e (t q)
      → IsHeld d e ((insert_lease k lease t).0 q)
  unfolding insert_lease
  insert_lease-IsHeld k lease t none eq ne held =
      rw (eq, insert_lease) (put-IsHeld k (some lease) t ne held)
  insert_lease-IsHeld k lease t (some row) eq ne held = rw (eq, insert_lease) held

  locked_row-elsewhere :
      (k other now : ℕ) (row : Option Lease) (t : Table)
      → k ≢ q
      → IsHeld d e (t q)
      → IsHeld d e ((locked_row k other now secs row t).0 q)
  unfolding locked_row
  locked_row-elsewhere k other now none t ne held = insert_lease-IsHeld k _ t (t k) refl ne held
  locked_row-elsewhere k other now (some row) t ne held =
      elim (Bool-cases (ltb row.expires_at now || row.daemon_id == other)) [
        | inl free ↦ rw free (put-IsHeld k _ t ne held)
        | inr live ↦ rw live held
      ]

  pub claim_locked-IsHeld :
      (k other now : ℕ) (t : Table)
      → now ≤ e
      → other ≢ d
      → IsHeld d e (t q)
      → IsHeld d e ((claim_locked k other now secs t).0 q)
  unfolding claim_locked
  claim_locked-IsHeld k other now t le ne held = elim (ℕ_discrete k q) [
    | yes same ↦
        rw
          (locked_row-IsHeld d e k other now secs (t k) t le ne
            (subst (λ j. IsHeld d e (t j)) (sym same) held))
          held
    | no differ ↦ locked_row-elsewhere k other now (t k) t differ held
  ]

  cas_update-elsewhere :
      (k version : ℕ) (before : Option ℕ) (new : Lease) (row : Option Lease) (t : Table)
      → t k ≡ row
      → k ≢ q
      → IsHeld d e (t q)
      → IsHeld d e ((cas_update k version before new t).0 q)
  unfolding cas_update
  cas_update-elsewhere k version before new none t eq ne held = rw (eq, cas_update) held
  cas_update-elsewhere k version before new (some row) t eq ne held =
      elim (Bool-cases (row.version == version && is_before before row.expires_at)) [
        | inl hit ↦ rw (eq, cas_update, hit) (put-IsHeld k (some new) t ne held)
        | inr miss ↦ rw (eq, cas_update, miss) held
      ]

  claim_seen-elsewhere :
      (k other now : ℕ) (seen : Option Lease) (t : Table)
      → k ≢ q
      → IsHeld d e (t q)
      → IsHeld d e ((claim_seen k other now secs seen t).0 q)
  unfolding claim_seen
  claim_seen-elsewhere k other now none t ne held = insert_lease-IsHeld k _ t (t k) refl ne held
  claim_seen-elsewhere k other now (some s) t ne held = elim (Bool-cases (s.daemon_id == other)) [
    | inl own ↦ rw own (
        cas_update-elsewhere k s.version none (taken other (now + secs) s.version) (t k) t refl ne
          held)
    | inr foreign ↦ rw foreign (elim (Bool-cases (ltb s.expires_at now)) [
      | inl expired ↦ rw expired (
          cas_update-elsewhere k s.version (some now) (taken other (now + secs) s.version) (t k) t
            refl ne held)
      | inr live ↦ rw live held
    ])
  ]

  pub claim_seen-keeps :
      (p : Pending) (t : Table)
      → p.daemon ≢ d
      → IsHarmless q d e p
      → IsHeld d e (t q)
      → IsHeld d e ((claim_seen p.queue p.daemon p.now secs p.seen t).0 q)
  claim_seen-keeps p t ne harmless held = elim (ℕ_discrete p.queue q) [
    | yes same ↦
        let dated = harmless same ne in
        rw
          (claim_seen-IsHeld d e p.queue p.daemon p.now secs p.seen (t p.queue) t refl dated.0
            dated.1 (subst (λ j. IsHeld d e (t j)) (sym same) held))
          held
    | no differ ↦ claim_seen-elsewhere p.queue p.daemon p.now p.seen t differ held
  ]
