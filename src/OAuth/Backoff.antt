-- ===== src/OAuth/Backoff.antt =====
-- The back-off of failing token requests (src/lib/OAuthProvider.ts).
use native.Mathlib.Nat.{pow-suc}
use zeebe_client_node_js.Base.{
  ℕ, zero, suc, ◌*◌, ◌^◌, ◌≤◌, ◌≡◌, ◌∙◌, ap, Option, some, String, min, arith,
}
use zeebe_client_node_js.OAuth.Provider.{Provider, Token, request_fails, request_succeeds}

-- `n` requests fail, one after another.
pub fail_times : ℕ → Provider → Provider
fail_times zero p = p
fail_times (suc n) p = request_fails (fail_times n p)

request_fails_once :
    (p : Provider) → p.current_backoff_time ≡ 1 → (request_fails p).current_backoff_time ≡ 2000
unfolding request_fails
request_fails_once p h = ground arith

request_fails_again :
    (p : Provider) (k : ℕ)
    → p.current_backoff_time ≡ min (1000 * (2 * k)) 60000
    → 1 ≤ k
    → (request_fails p).current_backoff_time ≡ min (1000 * (2 * (2 * k))) 60000
unfolding request_fails
request_fails_again p k h l = ground arith

pow-pos : (n : ℕ) → 1 ≤ 2 ^ n
pow-pos zero = omega arith
pow-pos (suc n) = omega (arith, pow-pos n, pow-suc 2 n)

fail_times_lem :
    (n : ℕ) (p : Provider)
    → p.current_backoff_time ≡ 1
    → (fail_times (suc n) p).current_backoff_time ≡ min (1000 * (2 * 2 ^ n)) 60000
unfolding fail_times
fail_times_lem zero p h = request_fails_once p h
fail_times_lem (suc n) p h =
    request_fails_again (fail_times (suc n) p) (2 ^ n) (fail_times_lem n p h) (pow-pos n)
    ∙ ap (λ k. min (1000 * (2 * k)) 60000) (omega (arith, pow-suc 2 n))

succeeds_resets :
    (parse : String → Option Token) (print : Token → String) (now : ℕ) (text : String)
    (p : Provider) {token : Token}
    → parse text ≡ some token
    → (request_succeeds parse print now text p).0.current_backoff_time ≡ 1
unfolding request_succeeds
succeeds_resets parse print now text p h = ground arith

-- From a provider whose back-off time is 1 millisecond, as it is at first and after a success: the
-- delay before the next request after n + 1 failures in a row is 1000 · 2ⁿ⁺¹ milliseconds, and 60
-- seconds at most; after n failures and a response that holds a token it is 1 millisecond again.
pub backoff_delays :
    (n : ℕ) (p : Provider) (parse : String → Option Token) (print : Token → String) (now : ℕ)
    (text : String) (token : Token)
    → p.current_backoff_time ≡ 1
    → parse text ≡ some token
    → ((fail_times (suc n) p).current_backoff_time ≡ min (1000 * 2 ^ suc n) 60000)
      × ((request_succeeds parse print now text (fail_times n p)).0.current_backoff_time ≡ 1)
backoff_delays n p parse print now text token h e = (
  fail_times_lem n p h ∙ ap (λ k. min k 60000) (omega (arith, pow-suc 2 n)),
  succeeds_resets parse print now text (fail_times n p) e,
)
