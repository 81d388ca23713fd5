-- ===== src/Triggers/Replay.antt =====
-- Requests that repeat a signature, in src/sqlery/core/triggers.py.
use sqlery.Prelude.{
  ℕ, suc, ◌+◌, ◌*◌, ◌≤◌, ◌<◌, ◌≡◌, ◌≢◌, Bool, true, false, not, ◌&&◌, ◌||◌, Option, none, some,
  List, [], ◌∷◌, ◌++◌, Text, if◌then◌else◌, is_empty, arith, refl, Bool-cases, inl, inr, ◌⊎◌, sym,
  subst,
}
use sqlery.Triggers.{
  Action, Stamp, nonneg, negative, Crypto, Settings, Envelope, is_fresh, is_ip_allowed, Answer,
  forbidden, missing_signature, misconfigured, body_signature_required, invalid_signature,
  duplicate, dispatch, is_body_bound, is_valid, key_of, settle, with_secret, handle, action_of,
}
use sqlery.Triggers.Accepts.{dispatched, accepted}
use sqlery.Triggers.Cache.{Seen, Key, is_expired, evict, has_key, trim, idempotency_seen}
use sqlery.Triggers.Holds.{
  Holds, Holds-evict, Holds-append, Holds-trim, Holds-has_key, Holds-more, Holds-last,
}

module _ (lib : Crypto) (set : Settings) where
  -- The requests that a receiver gets, each with the time of its clock; the clock does not go back.
  abbrev pub Requests : Type 0
  Requests = List (ℕ × ℕ × Envelope)

  abbrev pub IsOrdered : (since : ℕ) → Requests → Type 0
  IsOrdered since [] = Unit
  IsOrdered since ((now, seen_at, e) ∷ rest) = (since ≤ seen_at) × IsOrdered seen_at rest

  -- The cache after the requests, the time of the last one, and how many were dispatched.
  unfoldable pub receive : Requests → Seen → Seen
  receive [] cache = cache
  receive ((now, seen_at, e) ∷ rest) cache = receive rest (handle lib set now seen_at e cache).1

  abbrev pub last_time : (since : ℕ) → Requests → ℕ
  last_time since [] = since
  last_time since ((now, seen_at, e) ∷ rest) = last_time seen_at rest

  abbrev pub is_dispatch : Answer → Bool
  is_dispatch (dispatch a) = true
  is_dispatch _ = false

  unfoldable pub dispatched_in : Requests → Seen → ℕ
  dispatched_in [] cache = 0
  dispatched_in ((now, seen_at, e) ∷ rest) cache =
      (if is_dispatch (handle lib set now seen_at e cache).0 then 1 else 0)
      + dispatched_in rest (handle lib set now seen_at e cache).1

  last_time-le : (since : ℕ) (reqs : Requests) → IsOrdered since reqs → since ≤ last_time since reqs
  last_time-le since [] o = omega arith
  last_time-le since ((now, seen_at, e) ∷ rest) o =
      omega (arith, o.0, last_time-le seen_at rest o.1)

  -- What a request makes of the cache.
  data Change (now : ℕ) (e : Envelope) (cache : Seen) : Answer × Seen → Type 0 where
    kept : (a : Answer) → is_dispatch a ≡ false → Change now e cache (a, cache)
    evicts : Change now e cache (duplicate, evict now cache)
    adds :
        (a : Action)
        → Change now e cache (dispatch a, trim (evict now cache ++ (key_of lib set e, now) ∷ []))

  settle-Change :
      (now : ℕ) (e : Envelope) (cache : Seen)
      → Change now e cache (settle lib set e (idempotency_seen now (key_of lib set e) cache))
  unfolding idempotency_seen
  settle-Change now e cache = elim (Bool-cases (has_key (key_of lib set e) (evict now cache))) [
    | inl seen ↦ rw seen evicts
    | inr new ↦ rw new (adds (action_of e.action))
  ]

  with_secret-Change :
      (now seen_at : ℕ) (e : Envelope) (secret : Option Text) (cache : Seen)
      → Change seen_at e cache (with_secret lib set now seen_at e secret cache)
  with_secret-Change now seen_at e none cache = kept misconfigured refl
  with_secret-Change now seen_at e (some secret) cache = elim (Bool-cases (is_empty secret)) [
    | inl empty ↦ rw empty (kept misconfigured refl)
    | inr full ↦
        rw full (elim (Bool-cases (not (is_body_bound lib set e) && set.require_body_signature)) [
          | inl required ↦ rw required (kept body_signature_required refl)
          | inr bound ↦ rw bound (elim (Bool-cases (is_valid lib set secret now e)) [
            | inr invalid ↦ rw invalid (kept invalid_signature refl)
            | inl valid ↦ rw valid (settle-Change seen_at e cache)
          ])
        ])
  ]

  handle-Change :
      (now seen_at : ℕ) (e : Envelope) (cache : Seen)
      → Change seen_at e cache (handle lib set now seen_at e cache)
  unfolding handle
  handle-Change now seen_at e cache =
      elim (Bool-cases (is_ip_allowed lib set.allowed_ips e.remote_addr)) [
        | inr barred ↦ rw barred (kept forbidden refl)
        | inl allowed ↦
            rw allowed (elim (Bool-cases (is_empty e.signature || is_empty e.timestamp)) [
              | inl none_given ↦ rw none_given (kept missing_signature refl)
              | inr given ↦ rw given (with_secret-Change now seen_at e set.secret cache)
            ])
      ]

  -- An entry that has not expired stays, behind one more for a request that is dispatched.
  Change-Holds :
      (x : Key × ℕ) (n now : ℕ) (e : Envelope) (cache : Seen) (out : Answer × Seen)
      → Change now e cache out
      → is_expired now x ≡ false
      → (if is_dispatch out.0 then 1 else 0) + n < 1024
      → Holds x n cache
      → Holds x ((if is_dispatch out.0 then 1 else 0) + n) out.1
  Change-Holds x n now e cache out (kept a silent) young small h =
      rw silent (Holds-more x n (0 + n) cache (omega arith) h)
  Change-Holds x n now e cache out evicts young small h =
      Holds-more x n (0 + n) (evict now cache) (omega arith) (Holds-evict now x n cache young h)
  Change-Holds x n now e cache out (adds a) young small h =
      Holds-more x (suc n) (1 + n) (trim (evict now cache ++ (key_of lib set e, now) ∷ []))
        (omega arith)
        (Holds-trim x (suc n) (evict now cache ++ (key_of lib set e, now) ∷ [])
          (omega (arith, small))
          (Holds-append x (key_of lib set e, now) n (evict now cache)
            (Holds-evict now x n cache young h)))

  -- A request is dispatched at `now`; its entry has expired by the last time, or is in the cache.
  still_there :
      (x : Key × ℕ) (n since : ℕ) (reqs : Requests) (cache : Seen)
      → IsOrdered since reqs
      → dispatched_in reqs cache + n < 1024
      → Holds x n cache
      → (x.1 + 30000000 < last_time since reqs) ⊎ Holds x 1023 (receive reqs cache)
  unfolding dispatched_in receive
  still_there x n since [] cache o small h =
      inr (Holds-more x n 1023 cache (omega (arith, small)) h)
  still_there x n since ((now, seen_at, e) ∷ rest) cache o small h =
      elim (Bool-cases (is_expired seen_at x)) [
        | inl old ↦ inl (ground (arith, old, last_time-le seen_at rest o.1))
        | inr young ↦
            let some_more =
              Change-Holds x n seen_at e cache (handle lib set now seen_at e cache)
                (handle-Change now seen_at e cache) young (omega (arith, small)) h in
            still_there x
              ((if is_dispatch (handle lib set now seen_at e cache).0 then 1 else 0) + n) seen_at
              rest (handle lib set now seen_at e cache).1 o.1 (omega (arith, small)) some_more
      ]

  new-Holds :
      (now : ℕ) (e : Envelope) (cache : Seen)
      → Holds (key_of lib set e, now) 0 (trim (evict now cache ++ (key_of lib set e, now) ∷ []))
  new-Holds now e cache =
      Holds-trim (key_of lib set e, now) 0 (evict now cache ++ (key_of lib set e, now) ∷ [])
        (omega arith) (Holds-last (key_of lib set e, now) (evict now cache))

  -- The times at which one timestamp is fresh are at most twice the age apart.
  fresh-apart :
      (t u : ℕ) (at_time : Option Stamp)
      → is_fresh t set.max_age at_time ≡ true
      → is_fresh u set.max_age at_time ≡ true
      → u ≤ t + 1000000 * set.max_age + 1000000 * set.max_age
  fresh-apart t u none f g = cc
  fresh-apart t u (some (nonneg s)) f g = ground (arith, f, g)
  fresh-apart t u (some (negative s)) f g = ground (arith, f, g)

  -- The cache is read at most `delay` microseconds after the signature is checked, twice the maximal
  -- age of a signature and that delay are 30 seconds or less, and the cache is read in the order of the
  -- requests. Once a request is dispatched, and as long as fewer than 1024 others are, no request with its
  -- timestamp and its signature is dispatched again, at any time and with any body.
  pub handle-once :
      (now seen_at delay : ℕ) (e : Envelope) (cache : Seen) (a : Action)
      → 2000000 * set.max_age + delay ≤ 30000000
      → now ≤ seen_at
      → (handle lib set now seen_at e cache).0 ≡ dispatch a
      → (reqs : Requests) → IsOrdered seen_at reqs
      → dispatched_in reqs (handle lib set now seen_at e cache).1 < 1024
      → (later seen_later : ℕ) → last_time seen_at reqs ≤ seen_later
      → seen_later ≤ later + delay
      → (e' : Envelope) → e'.timestamp ≡ e.timestamp
      → e'.signature ≡ e.signature
      → (b : Action)
      → (handle lib set later seen_later e' (receive reqs (handle lib set now seen_at e cache).1)).0
        ≢ dispatch b
  handle-once now seen_at delay e cache a short first h reqs o few later seen_later o' soon e'
        same_time same_signature b h' =
      let (s, ok) = dispatched lib set now seen_at e cache a h in
      let (s', ok') =
        dispatched lib set later seen_later e' (receive reqs (handle lib set now seen_at e cache).1)
          b h' in
      let stored = accepted lib set now seen_at e cache s ok in
      let held : Holds (key_of lib set e, seen_at) 0 (handle lib set now seen_at e cache).1 =
        subst (λ out. Holds (key_of lib set e, seen_at) 0 out.1) (sym stored)
          (new-Holds seen_at e cache) in
      let near =
        fresh-apart now later (lib.int_of e.timestamp) ok.fresh
          (subst (λ t. is_fresh later set.max_age (lib.int_of t) ≡ true) same_time ok'.fresh) in
      elim (still_there (key_of lib set e, seen_at) 0 seen_at reqs
        (handle lib set now seen_at e cache).1 o (omega (arith, few)) held) [
          | inl expired ↦ omega (arith, expired, near, short, o', soon, first)
          | inr there ↦
              let young : is_expired seen_later (key_of lib set e, seen_at) ≡ false =
                ground (arith, near, short, soon, first) in
              let same_key : key_of lib set e ≡ key_of lib set e' =
                rw (same_time, same_signature) refl in
              let found =
                Holds-has_key (key_of lib set e) seen_at 1023
                  (evict seen_later (receive reqs (handle lib set now seen_at e cache).1))
                  (Holds-evict seen_later (key_of lib set e, seen_at) 1023
                    (receive reqs (handle lib set now seen_at e cache).1) young there) in
              let unseen : has_key (key_of lib set e)
                    (evict seen_later (receive reqs (handle lib set now seen_at e cache).1))
                  ≡ false =
                subst
                  (λ k.
                    has_key k
                      (evict seen_later (receive reqs (handle lib set now seen_at e cache).1))
                    ≡ false)
                  (sym same_key) ok'.unseen in
              cc
        ]
