-- ===== src/Client/Tests/Promises.antt =====
-- An implementation of the interface of promise-retry, for the examples of src/zb/ZBClient.ts. The
-- budget `none` asks whether an attempt ever ends otherwise than by `retry`; excluded middle decides it.
use Prim.Axiom.{lem}
use std.HLevel.{Σ_prop_path}
use zeebe_client_node_js.Base.{
  ℕ, zero, suc, ◌≤◌, ◌<◌, ◌≡◌, ◌⊎◌, inl, inr, refl, ap, true, false, Option, none, some, arith,
  if◌then◌else◌,
}
use zeebe_client_node_js.Client.Retry.{Verdict, Final, settles_as, is_retry, Within, PromiseRetry}

module _ {A : Type 0} where
  record Stops (tries : ℕ → Verdict A) (n : ℕ) : Type 0 where
    before : (m : ℕ) → m < n → is_retry (tries (suc m)) ≡ true
    last : is_retry (tries (suc n)) ≡ false

  Stops-prop : (tries : ℕ → Verdict A) (n : ℕ) → IsProp (Stops tries n)
  Stops-prop tries n = hlevel

  same_stop : (tries : ℕ → Verdict A) (m n : ℕ) → Stops tries m → Stops tries n → m ≡ n
  same_stop tries m n s t = elim (ℕ-cases m n) [
    | inl e ↦ e
    | inr (inl l) ↦ absurd (let e = t.before m l in let d = s.last in ground arith)
    | inr (inr l) ↦ absurd (let e = s.before n l in let d = t.last in ground arith)
  ]
    where
      ℕ-cases : (m n : ℕ) → (m ≡ n) ⊎ ((m < n) ⊎ (n < m))
      ℕ-cases m n = ground arith

  stop-prop : (tries : ℕ → Verdict A) → IsProp ((n : ℕ) × Stops tries n)
  stop-prop tries x y = Σ_prop_path (Stops-prop tries) (same_stop tries x.0 y.0 x.1 y.1)

  abbrev of_stop : (tries : ℕ → Verdict A) → Dec ((n : ℕ) × Stops tries n) → Option (Final A)
  of_stop tries (yes (n, _)) = settles_as (tries (suc n))
  of_stop tries (no _) = none

  of_stop_lem :
      (tries : ℕ → Verdict A) (d : Dec ((n : ℕ) × Stops tries n)) (n : ℕ)
      → Stops tries n
      → of_stop tries d ≡ settles_as (tries (suc n))
  of_stop_lem tries (yes (m, s)) n t =
      ap (λ k. settles_as (tries (suc k))) (same_stop tries m n s t)
  of_stop_lem tries (no f) n t = absurd (f (n, t))

  bounded : ℕ → (ℕ → Verdict A) → Option (Final A)
  bounded zero tries = settles_as (tries 1)
  bounded (suc k) tries =
      let rest = bounded k (λ i. tries (suc i)) in
      if is_retry (tries 1) then rest else settles_as (tries 1)

  bounded-settles :
      (k n : ℕ) (tries : ℕ → Verdict A)
      → ((m : ℕ) → m < n → is_retry (tries (suc m)) ≡ true)
      → is_retry (tries (suc n)) ≡ false
      → n ≤ k
      → bounded k tries ≡ settles_as (tries (suc n))
  unfolding bounded
  bounded-settles zero zero tries before last l = refl
  bounded-settles zero (suc n) tries before last l = absurd (omega arith)
  bounded-settles (suc k) zero tries before last l = rw last
  bounded-settles (suc k) (suc n) tries before last l = rw (before 0 (omega arith)) (
      bounded-settles k n (λ i. tries (suc i)) (λ m h. before (suc m) (omega arith)) last
        (omega arith))

  bounded_gives_up :
      (k : ℕ) (tries : ℕ → Verdict A)
      → ((m : ℕ) → m ≤ k → is_retry (tries (suc m)) ≡ true)
      → bounded k tries ≡ settles_as (tries (suc k))
  unfolding bounded
  bounded_gives_up zero tries all = refl
  bounded_gives_up (suc k) tries all =
      rw (all 0 (omega arith))
        (bounded_gives_up k (λ i. tries (suc i)) (λ m h. all (suc m) (omega arith)))

  abbrev retry_with : Option ℕ → (ℕ → Verdict A) → Option (Final A)
  retry_with none tries = of_stop tries (lem ((n : ℕ) × Stops tries n) (stop-prop tries))
  retry_with (some k) tries = bounded k tries

  retry_with-settles :
      (budget : Option ℕ) (tries : ℕ → Verdict A) (n : ℕ)
      → ((m : ℕ) → m < n → is_retry (tries (suc m)) ≡ true)
      → is_retry (tries (suc n)) ≡ false
      → Within budget n
      → retry_with budget tries ≡ settles_as (tries (suc n))
  retry_with-settles none tries n before last l =
      of_stop_lem tries (lem ((n : ℕ) × Stops tries n) (stop-prop tries)) n
        (record { before = before; last = last })
  retry_with-settles (some k) tries n before last l = bounded-settles k n tries before last l

  pub promises : PromiseRetry A
  promises = record {
    promise_retry = retry_with;
    settles = retry_with-settles;
    gives_up = λ k tries all. bounded_gives_up k tries all;
  }
