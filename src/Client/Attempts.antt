-- ===== src/Client/Attempts.antt =====
-- What the promise of a client operation comes to (src/zb/ZBClient.ts).
use native.Mathlib.Nat.{le_refl}
use zeebe_client_node_js.Base.{
  ℕ, suc, ◌+◌, ◌≤◌, ◌<◌, ◌≡◌, refl, ap, ◌∙◌, Bool, true, false, none, some, List, [], ◌∷◌, ℤ, pos,
  ◌+ℤ◌, arith, ◌||◌, All, ◌⊎◌, inl, inr,
}
use zeebe_client_node_js.Client.Retry.{
  OperationError, resolves, rejects, Circumstances, retries, is_network_error, is_backpressure,
  attempt, count_attempt, retry_budget, Final, resolved, rejected, settles_as, is_retry, Within,
  PromiseRetry, execute_operation,
}

-- An attempt of a client that is open, that the gateway was not there for or refused for load.
pub record IsTransient {A : Type 0} (c : Circumstances A) (e : OperationError) : Type 0 where
  pub open_client : c.closing ≡ false
  pub open_channel : c.closed_before ≡ false
  pub rejected_with : c.outcome ≡ rejects e
  pub transient : (is_network_error e || is_backpressure e) ≡ true

module _ {A : Type 0} where
  attempt-transient :
      (c : Circumstances A) (e : OperationError) → IsTransient c e → attempt c ≡ retries e
  unfolding attempt
  attempt-transient c e t = rw (t.open_client, t.open_channel, t.rejected_with, t.transient)

  -- The result of an attempt that is not repeated, by what the attempt finds.
  pub data Ends (c : Circumstances A) : Final A → Type 0 where
    succeeded :
        (a : A) {f : Final A}
        → c.closing ≡ false
        → c.closed_before ≡ false
        → c.outcome ≡ resolves a
        → f ≡ resolved (some a)
        → Ends c f
    refused :
        (e : OperationError) {f : Final A}
        → c.closing ≡ false
        → c.closed_before ≡ false
        → c.closed_after ≡ false
        → c.outcome ≡ rejects e
        → (is_network_error e || is_backpressure e) ≡ false
        → f ≡ rejected e
        → Ends c f
    client_closed :
        {f : Final A} → (c.closing || c.closed_before) ≡ true → f ≡ resolved none → Ends c f

  attempt-Ends :
      (c : Circumstances A) (f : Final A)
      → Ends c f
      → (is_retry (attempt c) ≡ false) × (settles_as (attempt c) ≡ some f)
  unfolding attempt
  attempt-Ends c f (succeeded a p q r e) = rw (p, q, r, e) (refl, refl)
  attempt-Ends c f (refused x p q s r t e) = rw (p, q, r, t, s, e) (refl, refl)
  attempt-Ends c f (client_closed p e) = rw (p, e) (refl, refl)

  retry-transient :
      (c : Circumstances A) {e : OperationError} → IsTransient c e → is_retry (attempt c) ≡ true
  retry-transient c {e} t = ap is_retry (attempt-transient c e t)

  module _ (p : PromiseRetry A) where
    -- With retries on, an operation whose first n attempts meet a network error or back pressure is
    -- attempted again, and the next attempt decides, if n is within the budget: a value resolves the
    -- promise, any other error rejects it, and a client that is closing resolves it to undefined.
    pub operation_settles :
        (max_retries : ℤ) (world : ℕ → Circumstances A) (errors : ℕ → OperationError) (n : ℕ)
        (f : Final A)
        → ((m : ℕ) → m < n → IsTransient (world (suc m)) (errors m))
        → Ends (world (suc n)) f
        → Within (retry_budget max_retries) n
        → execute_operation p true max_retries world ≡ some f
    unfolding execute_operation
    operation_settles max_retries world errors n f before last enough =
        let (stops, same) = attempt-Ends (world (suc n)) f last in
        p.settles (retry_budget max_retries) (λ i. attempt (world i)) n
          (λ m l. retry-transient (world (suc m)) (before m l)) stops enough
        ∙ same

    -- With retries on and a budget of k retries, k + 1 attempts that meet a network error or back
    -- pressure reject the promise with the last error.
    pub operation_gives_up :
        (max_retries : ℤ) (world : ℕ → Circumstances A) (errors : ℕ → OperationError) (k : ℕ)
        → retry_budget max_retries ≡ some k
        → ((m : ℕ) → m ≤ k → IsTransient (world (suc m)) (errors m))
        → execute_operation p true max_retries world ≡ some (rejected (errors k))
    unfolding execute_operation
    operation_gives_up max_retries world errors k budget all =
        ap (λ b. p.promise_retry b (λ i. attempt (world i))) budget
        ∙ p.gives_up k (λ i. attempt (world i)) (λ m l. retry-transient (world (suc m)) (all m l))
        ∙ ap settles_as (attempt-transient (world (suc k)) (errors k) (all k (le_refl k)))

-- The attempts of one operation, with the count that they share: was `_onConnectionError` called?
pub notifications : {A : Type 0} → List (Circumstances A) → ℤ → List Bool
notifications [] count = []
notifications (c ∷ rest) count =
    let (count', notified) = count_attempt c count in notified ∷ notifications rest count'

count_attempt-pos :
    {A : Type 0} (c : Circumstances A) (n : ℕ)
    → ((count_attempt c (pos n)).1 ≡ false)
      × (((count_attempt c (pos n)).0 ≡ pos n) ⊎ ((count_attempt c (pos n)).0 ≡ pos (n + 1)))
unfolding count_attempt ◌+ℤ◌
count_attempt-pos c n = ground arith

never_notified :
    {A : Type 0} (attempts : List (Circumstances A)) (n : ℕ)
    → All (λ notified. notified ≡ false) (notifications attempts (pos n))
unfolding notifications
never_notified [] n = tt
never_notified (c ∷ rest) n =
    let (silent, next) = count_attempt-pos c n in
    (
      silent,
      elim next [
        | inl e ↦ rw e (never_notified rest n)
        | inr e ↦ rw e (never_notified rest (n + 1))
      ],
    )

-- However many attempts of an operation fail with a network error, none of them reports a
-- connection error: the count that is tested for being negative starts at zero and only grows.
pub retries_never_notify :
    {A : Type 0} (attempts : List (Circumstances A))
    → All (λ notified. notified ≡ false) (notifications attempts (pos 0))
retries_never_notify attempts = never_notified attempts 0
