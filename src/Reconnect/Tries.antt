-- ===== src/Reconnect/Tries.antt =====
-- The rounds of retry_on_db_error, src/sqlery/core/db_resilience.py, and of _with_reconnect,
-- src/sqlery/core/worker.py.
use sqlery.Prelude.{
  ==_iff, ◌==◌, ◌⊎◌, ℕ, zero, suc, ◌+◌, ◌*◌, ◌^◌, ◌≤◌, ◌<◌, ◌≡◌, Bool, true, false, some, Text, leb,
  arith, refl, subst, sym, Bool-cases, inl, inr,
}
use sqlery.Reconnect.{
  Result, returned, raised, none_raised, Calls, pause, is_retried, retry_loop, retry_on_db_error,
  gives_up, with_reconnect,
}

module _ {ℓ} {S E A : Type ℓ} (c : Calls S E A) (delay : ℕ → ℕ) where
  -- The state before the round `k`, if all rounds before it were followed by a pause.
  unfoldable pub state_at : ℕ → S → S
  state_at zero s = s
  state_at (suc k) s = pause c (delay k) (c.call (state_at k s)).1

  abbrev pub outcome_of : ℕ → S → Result E A × S
  outcome_of k s = c.call (state_at k s)

-- A test that holds below a number, and of the number, holds below the next one.
below_suc :
    (test : ℕ → Bool) (b : Bool) (n : ℕ)
    → ((k : ℕ) → k < n → test k ≡ b)
    → test n ≡ b
    → (k : ℕ) → k < suc n
    → test k ≡ b
below_suc test b n below at k h = elim (Bool-cases (k == n)) [
  | inl same ↦ subst (λ m. test m ≡ b) (sym ((==_iff k n).0 same)) at
  | inr other ↦ below k (ground arith)
]

module _ {ℓ} {S E A : Type ℓ} (c : Calls S E A) (is_retryable : E → Bool) (message : E → Text)
    (max_retries base : ℕ) (s : S) where
  abbrev pub pause_of : ℕ → ℕ
  pause_of k = base * 2 ^ k

  -- Whether the outcome of round `k` is an error that is worth another round.
  abbrev pub is_transient : ℕ → Bool
  is_transient k = is_retried c is_retryable message max_retries base (outcome_of c pause_of k s).0

  -- Round `j` is the first whose outcome is not worth another one, or the last.
  abbrev pub IsLastTry : ℕ → Type 0
  IsLastTry j =
      (j ≤ max_retries)
      × ((k : ℕ) → k < j → is_transient k ≡ true)
      × ((j ≡ max_retries) ⊎ (is_transient j ≡ false))

  retry_loop-IsLastTry :
      (rounds attempt : ℕ) (last_exc : Result E A)
      → attempt + suc rounds ≡ suc max_retries
      → ((k : ℕ) → k < attempt → is_transient k ≡ true)
      → (j : ℕ) × IsLastTry j
        × (retry_loop c is_retryable message max_retries base
              (suc rounds)
              attempt
              last_exc
              (state_at c pause_of attempt s)
            ≡ outcome_of c pause_of j s)
  unfolding retry_loop state_at
  retry_loop-IsLastTry zero attempt last_exc sum before =
      let last : leb max_retries attempt ≡ true = ground arith in
      (attempt, (omega arith, before, inl (omega arith)), rw last (ground arith))
  retry_loop-IsLastTry (suc rounds) attempt last_exc sum before =
      elim (Bool-cases (is_transient attempt)) [
        | inr settled ↦ (attempt, (omega arith, before, inr settled), rw settled refl)
        | inl again ↦
            let more : leb max_retries attempt ≡ false = ground arith in
            let rest =
              retry_loop-IsLastTry rounds (suc attempt) (outcome_of c pause_of attempt s).0
                (omega arith) (below_suc is_transient true attempt before again) in
            (rest.0, rest.1, rw (again, more) rest.2)
      ]

-- The call is made until an outcome is not an error worth another round, and at most as often as the
-- retries allow and once more. What is returned or raised is the outcome of that round, which has the
-- state that the rounds before it and the doubling pauses after them have left.
pub retry_on_db_error-IsLastTry {ℓ} :
    {S E A : Type ℓ} (c : Calls S E A) (is_retryable : E → Bool) (message : E → Text)
    (max_retries base : ℕ) (s : S)
    → (j : ℕ) × IsLastTry c is_retryable message max_retries base s j
      × (retry_on_db_error c is_retryable message max_retries base s
          ≡ outcome_of c (pause_of c is_retryable message max_retries base s) j s)
unfolding retry_on_db_error state_at
retry_on_db_error-IsLastTry c is_retryable message max_retries base s =
    retry_loop-IsLastTry c is_retryable message max_retries base s max_retries 0 none_raised
      (omega arith) (λ k h. absurd (omega arith))

module _ {ℓ} {S E A : Type ℓ} (c : Calls S E A) (is_lost : E → Bool) (shutdown_requested : S → Bool)
    (delay : ℕ → ℕ) (s : S) where
  -- Whether round `k` is not followed by another one.
  abbrev pub is_final : ℕ → Bool
  is_final k = gives_up c is_lost shutdown_requested delay k (outcome_of c delay k s)

  -- Round `j` is the first that is not.
  abbrev pub IsFirstFinal : ℕ → Type 0
  IsFirstFinal j = (is_final j ≡ true) × ((k : ℕ) → k < j → is_final k ≡ false)

  with_reconnect-IsFirstFinal :
      (n fuel attempt : ℕ)
      → is_final (attempt + n) ≡ true
      → n < fuel
      → ((k : ℕ) → k < attempt → is_final k ≡ false)
      → (j : ℕ) × IsFirstFinal j
        × (with_reconnect c is_lost shutdown_requested delay fuel attempt
              (state_at c delay attempt s)
            ≡ some (outcome_of c delay j s))
  unfolding with_reconnect state_at
  with_reconnect-IsFirstFinal n zero attempt final enough before = absurd (omega arith)
  with_reconnect-IsFirstFinal zero (suc fuel) attempt final enough before =
      let shift : attempt + 0 ≡ attempt = omega arith in
      let now : is_final attempt ≡ true = subst (λ m. is_final m ≡ true) shift final in
      (attempt, (now, before), rw now refl)
  with_reconnect-IsFirstFinal (suc n) (suc fuel) attempt final enough before =
      elim (Bool-cases (is_final attempt)) [
        | inl now ↦ (attempt, (now, before), rw now refl)
        | inr later ↦
            let shift : attempt + suc n ≡ suc attempt + n = omega arith in
            let ahead : is_final (suc attempt + n) ≡ true =
              subst (λ m. is_final m ≡ true) shift final in
            let rest =
              with_reconnect-IsFirstFinal n fuel (suc attempt) ahead (omega arith)
                (below_suc is_final false attempt before later) in
            (rest.0, rest.1, rw later rest.2)
      ]

-- The outcome is not a lost connection.
abbrev pub IsAnswer {ℓ} : {E A : Type ℓ} → (E → Bool) → Result E A → Type 0
IsAnswer is_lost (returned a) = Unit
IsAnswer is_lost (raised e) = is_lost e ≡ false
IsAnswer is_lost none_raised = Unit

-- It is one.
abbrev pub IsLoss {ℓ} : {E A : Type ℓ} → (E → Bool) → Result E A → Type 0
IsLoss is_lost (returned a) = ⊥
IsLoss is_lost (raised e) = is_lost e ≡ true
IsLoss is_lost none_raised = ⊥

module _ {ℓ} {S E A : Type ℓ} (c : Calls S E A) (is_lost : E → Bool) (shutdown_requested : S → Bool)
    (delay : ℕ → ℕ) where
  -- An answer, or a shutdown that was requested, after three failures at least.
  abbrev pub IsEnd : (k : ℕ) → Result E A × S → Type 0
  IsEnd k (r, s) = IsAnswer is_lost r ⊎ (shutdown_requested s ≡ true) × (3 ≤ k)

  -- A lost connection, and no shutdown, or fewer failures before.
  abbrev pub IsTriedAgain : (k : ℕ) → Result E A × S → Type 0
  IsTriedAgain k (r, s) = IsLoss is_lost r × ((shutdown_requested s ≡ false) ⊎ (k < 3))

  IsEnd-gives_up :
      (k : ℕ) (out : Result E A × S)
      → IsEnd k out
      → gives_up c is_lost shutdown_requested delay k out ≡ true
  IsEnd-gives_up k (returned a, s) h = refl
  IsEnd-gives_up k (none_raised, s) h = refl
  IsEnd-gives_up k (raised e, s) (inl answer) = ground (arith, answer)
  IsEnd-gives_up k (raised e, s) (inr late) = ground (arith, late.0, late.1)

  gives_up-IsEnd :
      (k : ℕ) (out : Result E A × S)
      → gives_up c is_lost shutdown_requested delay k out ≡ true
      → IsEnd k out
  gives_up-IsEnd k (returned a, s) h = inl tt
  gives_up-IsEnd k (none_raised, s) h = inl tt
  gives_up-IsEnd k (raised e, s) h = elim (Bool-cases (is_lost e)) [
    | inr other ↦ inl other
    | inl lost ↦ inr (ground (arith, lost), ground (arith, lost))
  ]

  gives_up-IsTriedAgain :
      (k : ℕ) (out : Result E A × S)
      → gives_up c is_lost shutdown_requested delay k out ≡ false
      → IsTriedAgain k out
  gives_up-IsTriedAgain k (returned a, s) h = cc
  gives_up-IsTriedAgain k (none_raised, s) h = cc
  gives_up-IsTriedAgain k (raised e, s) h = (
    ground arith,
    elim (Bool-cases (shutdown_requested s)) [
      | inr runs ↦ inl runs
      | inl stops ↦ inr (ground (arith, stops))
    ],
  )

-- If some round returns, fails with another error than a lost connection, or finds the shutdown
-- requested after three failures or more, then the loop ends at the first such round and with its
-- outcome: fuel above the number of that round is enough. Every round before it lost the connection,
-- and either found no shutdown requested or came after fewer than three failures, whenever those were.
pub with_reconnect-ends {ℓ} :
    {S E A : Type ℓ} (c : Calls S E A) (is_lost : E → Bool) (shutdown_requested : S → Bool)
    (delay : ℕ → ℕ) (s : S) (n fuel : ℕ)
    → IsEnd c is_lost shutdown_requested delay n (outcome_of c delay n s)
    → n < fuel
    → (j : ℕ) × IsEnd c is_lost shutdown_requested delay j (outcome_of c delay j s)
      × ((k : ℕ)
          → k < j
          → IsTriedAgain c is_lost shutdown_requested delay k (outcome_of c delay k s))
      × (with_reconnect c is_lost shutdown_requested delay fuel 0 s ≡ some (outcome_of c delay j s))
unfolding state_at
with_reconnect-ends c is_lost shutdown_requested delay s n fuel final enough =
    let shift : n ≡ 0 + n = omega arith in
    let (j, first, same) =
      with_reconnect-IsFirstFinal c is_lost shutdown_requested delay s n fuel 0
        (subst (λ m. is_final c is_lost shutdown_requested delay s m ≡ true) shift
          (IsEnd-gives_up c is_lost shutdown_requested delay n (outcome_of c delay n s) final))
        enough (λ k h. absurd (omega arith)) in
    (
      j,
      gives_up-IsEnd c is_lost shutdown_requested delay j (outcome_of c delay j s) first.0,
      λ k h.
          gives_up-IsTriedAgain c is_lost shutdown_requested delay k (outcome_of c delay k s)
            (first.1 k h),
      same,
    )
