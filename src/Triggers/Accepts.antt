-- ===== src/Triggers/Accepts.antt =====
-- The requests that handle of src/sqlery/core/triggers.py dispatches.
use sqlery.Prelude.{
  ◌↔◌, ℕ, ◌≡◌, true, false, not, ◌&&◌, ◌||◌, Option, none, some, List, [], ◌∷◌, ◌++◌, Text, text_eq,
  text_eq_self, text_eq_sound, if◌then◌else◌, is_empty, arith, refl, Bool-cases, inl, inr, sym, ap,
  ◌∙◌,
}
use sqlery.Triggers.{
  Crypto, Settings, Envelope, message, is_fresh, verify_signature, generate_signature,
  is_ip_allowed, forbidden, missing_signature, misconfigured, body_signature_required,
  invalid_signature, duplicate, dispatch, Action, is_body_bound, is_valid, key_of, settle,
  with_secret, handle, action_of,
}
use sqlery.Triggers.Cache.{Seen, evict, has_key, trim, idempotency_seen}

module _ (lib : Crypto) (set : Settings) (now seen_at : ℕ) (e : Envelope) (cache : Seen) where
  -- What the signature has to cover: the timestamp, with the body if it is bound.
  abbrev pub signed : Option (List ℕ)
  signed = if is_body_bound lib set e then some e.body else none

  pub record IsAccepted (secret : Text) : Type 0 where
    pub is_allowed : is_ip_allowed lib set.allowed_ips e.remote_addr ≡ true
    pub configured : set.secret ≡ some secret
    pub not_empty : is_empty secret ≡ false
    pub has_headers : (is_empty e.signature || is_empty e.timestamp) ≡ false
    pub is_bound : (not (is_body_bound lib set e) && set.require_body_signature) ≡ false
    pub is_signed : e.signature ≡ generate_signature lib secret e.timestamp signed
    pub fresh : is_fresh now set.max_age (lib.int_of e.timestamp) ≡ true
    pub unseen : has_key (key_of lib set e) (evict seen_at cache) ≡ false

  is_valid-signed :
      (secret : Text)
      → is_valid lib set secret now e
        ≡ verify_signature lib e.signature e.timestamp secret now set.max_age signed
  is_valid-signed secret = elim (Bool-cases (is_body_bound lib set e)) [
    | inl y ↦ rw y refl
    | inr n ↦ rw n refl
  ]

  settle-dispatch :
      (a : Action)
      → (settle lib set e (idempotency_seen seen_at (key_of lib set e) cache)).0 ≡ dispatch a
      → has_key (key_of lib set e) (evict seen_at cache) ≡ false
  unfolding idempotency_seen
  settle-dispatch a h = elim (Bool-cases (has_key (key_of lib set e) (evict seen_at cache))) [
    | inl seen ↦ let bad : duplicate ≡ dispatch a = rw seen at h in cc
    | inr new ↦ new
  ]

  answered :
      (a : Action)
      → is_ip_allowed lib set.allowed_ips e.remote_addr ≡ true
      → (is_empty e.signature || is_empty e.timestamp) ≡ false
      → (secret : Option Text) → set.secret ≡ secret
      → (with_secret lib set now seen_at e secret cache).0 ≡ dispatch a
      → (s : Text) × IsAccepted s
  unfolding verify_signature generate_signature
  answered a allowed headers none configured h = cc
  answered a allowed headers (some secret) configured h = elim (Bool-cases (is_empty secret)) [
    | inl empty ↦ let bad : misconfigured ≡ dispatch a = rw empty at h in cc
    | inr full ↦ elim (Bool-cases (not (is_body_bound lib set e) && set.require_body_signature)) [
      | inl required ↦
          let bad : body_signature_required ≡ dispatch a = rw (full, required) at h in cc
      | inr bound ↦ elim (Bool-cases (is_valid lib set secret now e)) [
        | inr invalid ↦
            let bad : invalid_signature ≡ dispatch a = rw (full, bound, invalid) at h in cc
        | inl valid ↦
            let last : (settle lib set e (idempotency_seen seen_at (key_of lib set e) cache)).0
                ≡ dispatch a =
              rw (full, bound, valid) at h in
            let checked = sym (is_valid-signed secret) ∙ valid in
            (
              secret,
              record {
                is_allowed = allowed;
                configured = configured;
                not_empty = full;
                has_headers = headers;
                is_bound = bound;
                is_signed = sym (
                    text_eq_sound (lib.mac secret (message lib e.timestamp signed)) e.signature
                      (ground (arith, checked)));
                fresh = ground (arith, checked);
                unseen = settle-dispatch a last;
              },
            )
      ]
    ]
  ]

  pub dispatched :
      (a : Action) → (handle lib set now seen_at e cache).0 ≡ dispatch a → (s : Text) × IsAccepted s
  unfolding handle
  dispatched a h = elim (Bool-cases (is_ip_allowed lib set.allowed_ips e.remote_addr)) [
    | inr barred ↦ let bad : forbidden ≡ dispatch a = rw barred at h in cc
    | inl allowed ↦ elim (Bool-cases (is_empty e.signature || is_empty e.timestamp)) [
      | inl none_given ↦
          let bad : missing_signature ≡ dispatch a = rw (allowed, none_given) at h in cc
      | inr given ↦ answered a allowed given set.secret refl (rw (allowed, given) at h)
    ]
  ]

  pub accepted :
      (s : Text)
      → IsAccepted s
      → handle lib set now seen_at e cache ≡ (
        dispatch (action_of e.action),
        trim (evict seen_at cache ++ (key_of lib set e, seen_at) ∷ []),
      )
  unfolding handle verify_signature generate_signature idempotency_seen
  accepted s ok =
      let equal : text_eq (lib.mac s (message lib e.timestamp signed)) e.signature ≡ true =
        rw ok.is_signed (text_eq_self _) in
      let valid : is_valid lib set s now e ≡ true = is_valid-signed s ∙ rw (ok.fresh, equal) refl in
      rw (ok.is_allowed, ok.has_headers, ok.configured, ok.not_empty, ok.is_bound, valid, ok.unseen)
        refl

  -- A request is dispatched exactly if its address is allowed, the headers and the secret are there and
  -- not empty, its signature is the one that the secret gives to its timestamp (and to its body, under version 2, which a
  -- setting can require), the timestamp is fresh, and the cache does not hold the pair of both.
  pub handle-IsAccepted :
      ((a : Action) × ((handle lib set now seen_at e cache).0 ≡ dispatch a))
      ↔ ((s : Text) × IsAccepted s)
  handle-IsAccepted =
      ((λ p. dispatched p.0 p.1), λ p. (action_of e.action, ap (λ out. out.0) (accepted p.0 p.1)))
