-- ===== src/Client/Retry.antt =====
-- `executeOperation` and `retryOnFailure` (src/zb/ZBClient.ts). The package promise-retry is a
-- parameter: `promise_retry` of the interface below.
use text.Mathlib.Text.{starts_with}
use zeebe_client_node_js.Base.{
  ℕ, zero, suc, ◌≤◌, ◌<◌, ◌≡◌, Bool, true, false, Option, none, some, String, ℤ, pos, negsuc, ◌+ℤ◌,
  if◌then◌else◌, ◌||◌, ◌&&◌, ◌==◌, not, leb_ℤ, includes,
}

-- What an operation rejects with: the message and the gRPC code.
pub record OperationError : Type 0 where
  pub message : String
  pub code : Option ℕ

-- How an operation ends; `pending` is a promise that never settles, as that of a call whose status the
-- interceptor of src/lib/GrpcClient.ts keeps to itself.
pub data Outcome (A : Type 0) : Type 0 where
  resolves : A → Outcome A
  rejects : OperationError → Outcome A
  pending : Outcome A

-- What an attempt finds: the client's `closing`, the channel's `channelClosed` at its start and after
-- the operation, and the operation's outcome.
pub record Circumstances (A : Type 0) : Type 0 where
  pub closing : Bool
  pub closed_before : Bool
  pub outcome : Outcome A
  pub closed_after : Bool

-- How an attempt ends: with a value, with `undefined`, with a call of `retry`, with an error, or never.
pub data Verdict (A : Type 0) : Type 0 where
  gives : A → Verdict A
  gives_undefined : Verdict A
  retries fails : OperationError → Verdict A
  hangs : Verdict A

abbrev has_code : ℕ → Option ℕ → Bool
has_code n none = false
has_code n (some m) = m == n

abbrev pub is_network_error : OperationError → Bool
is_network_error e = starts_with e.message "14" || includes e.message "Stream removed"

abbrev pub is_backpressure : OperationError → Bool
is_backpressure e = starts_with e.message "8" || has_code 8 e.code

-- The `catch` of an attempt.
abbrev caught : {A : Type 0} → Bool → OperationError → Verdict A
caught closed_after e =
    if is_network_error e || is_backpressure e
    then retries e
    else if closed_after
    then gives_undefined
    else fails e

abbrev judge : {A : Type 0} → Bool → Outcome A → Verdict A
judge closed_after (resolves a) = gives a
judge closed_after (rejects e) = caught closed_after e
judge closed_after pending = hangs

-- One attempt: the function that is passed to promise-retry.
unfoldable pub attempt : {A : Type 0} → Circumstances A → Verdict A
attempt c = if c.closing || c.closed_before then gives_undefined else judge c.closed_after c.outcome

abbrev rejects_with_network_error : {A : Type 0} → Outcome A → Bool
rejects_with_network_error (resolves a) = false
rejects_with_network_error (rejects e) = is_network_error e
rejects_with_network_error pending = false

-- `connectionErrorCount` after an attempt, and whether `_onConnectionError` was called in it.
unfoldable pub count_attempt : {A : Type 0} → Circumstances A → ℤ → ℤ × Bool
unfolding ◌+ℤ◌
count_attempt c count =
    if not (c.closing || c.closed_before) && rejects_with_network_error c.outcome
    then (count +ℤ pos 1, not (leb_ℤ (pos 0) count))
    else (count, false)

-- The options that are passed to promise-retry: `none` for `forever`, else the number of retries.
-- A negative number other than -1 allows no retry.
unfoldable pub retry_budget : ℤ → Option ℕ
retry_budget (pos n) = some n
retry_budget (negsuc zero) = none
retry_budget (negsuc (suc n)) = some 0

-- What the promise of an operation comes to; `none` is `undefined`.
pub data Final (A : Type 0) : Type 0 where
  resolved : Option A → Final A
  rejected : OperationError → Final A

-- What the promise of an attempt comes to; `none` if it never settles.
abbrev pub settles_as : {A : Type 0} → Verdict A → Option (Final A)
settles_as (gives a) = some (resolved (some a))
settles_as gives_undefined = some (resolved none)
settles_as (retries e) = some (rejected e)
settles_as (fails e) = some (rejected e)
settles_as hangs = none

abbrev pub is_retry : {A : Type 0} → Verdict A → Bool
is_retry (retries e) = true
is_retry _ = false

abbrev pub Within : Option ℕ → ℕ → Type 0
Within none n = Unit
Within (some k) n = n ≤ k

-- promise-retry, as documented. It calls its function with the attempts 1, 2, … in turn, for as long
-- as they call `retry` and the budget of retries lasts, and settles as the last one does, or never if
-- that one never settles. `settles n` speaks of attempt n + 1, the one that n retries precede.
pub record PromiseRetry (A : Type 0) : Type 0 where
  pub promise_retry : Option ℕ → (ℕ → Verdict A) → Option (Final A)
  pub settles :
      (budget : Option ℕ) (tries : ℕ → Verdict A) (n : ℕ)
      → ((m : ℕ) → m < n → is_retry (tries (suc m)) ≡ true)
      → is_retry (tries (suc n)) ≡ false
      → Within budget n
      → promise_retry budget tries ≡ settles_as (tries (suc n))
  pub gives_up :
      (k : ℕ) (tries : ℕ → Verdict A)
      → ((m : ℕ) → m ≤ k → is_retry (tries (suc m)) ≡ true)
      → promise_retry (some k) tries ≡ settles_as (tries (suc k))

abbrev without_retry : {A : Type 0} → Outcome A → Option (Final A)
without_retry (resolves a) = some (resolved (some a))
without_retry (rejects e) = some (rejected e)
without_retry pending = none

module _ {A : Type 0} (p : PromiseRetry A) where
  -- `retryOnFailure`
  unfoldable pub retry_on_failure : ℤ → (ℕ → Circumstances A) → Option (Final A)
  retry_on_failure max_retries world =
      p.promise_retry (retry_budget max_retries) (λ n. attempt (world n))

  -- `executeOperation`; `none` is a promise that never settles. Without retries the operation is called once, whatever the client's state.
  unfoldable pub execute_operation : Bool → ℤ → (ℕ → Circumstances A) → Option (Final A)
  unfolding retry_on_failure
  execute_operation retry max_retries world =
      if retry then retry_on_failure max_retries world else without_retry (world 1).outcome
