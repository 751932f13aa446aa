-- ===== src/OAuth/Sharing.antt =====
-- One token request at a time (src/lib/OAuthProvider.ts).
use zeebe_client_node_js.Base.{
  ℕ, suc, ◌+◌, ◌≤◌, ◌≡◌, ◌⊎◌, refl, true, false, Option, List, [], ◌∷◌, String, arith,
  if◌then◌else◌,
}
use zeebe_client_node_js.OAuth.Provider.{Provider, Token, Answer, requested, get_token}

module _ (parse : String → Option Token) where
  -- Calls of `getToken` at given times, and how many of them send a request.
  pub get_tokens : List ℕ → Provider → Provider × List Answer
  get_tokens [] p = (p, [])
  get_tokens (now ∷ rest) p =
      let (p₁, a) = get_token parse now p in let (p₂, later) = get_tokens rest p₁ in (p₂, a ∷ later)

  inflight_kept :
      (now : ℕ) (p : Provider)
      → p.inflight_token_request ≡ true
      → (get_token parse now p).0.inflight_token_request ≡ true
  unfolding get_token
  inflight_kept now p h = ground arith

abbrev pub requests : List Answer → ℕ
requests [] = 0
requests (requested _ ∷ rest) = suc (requests rest)
requests (_ ∷ rest) = requests rest

requests-cons :
    (a : Answer) (rest : List Answer) → requests (a ∷ rest) ≡ requests (a ∷ []) + requests rest
requests-cons a rest = ground arith

module _ (parse : String → Option Token) where
  requests-get_token :
      (now : ℕ) (p : Provider)
      → (requests ((get_token parse now p).1 ∷ []) ≡ 0)
        ⊎ ((requests ((get_token parse now p).1 ∷ []) ≡ 1)
            × ((get_token parse now p).0.inflight_token_request ≡ true)
            × (p.inflight_token_request ≡ false))
  unfolding get_token
  requests-get_token now p = ground arith

  no_requests :
      (times : List ℕ) (p : Provider)
      → p.inflight_token_request ≡ true
      → requests (get_tokens parse times p).1 ≡ 0
  unfolding get_tokens
  no_requests [] p h = refl
  no_requests (now ∷ rest) p h = ground (
    arith,
    requests-cons (get_token parse now p).1 (get_tokens parse rest (get_token parse now p).0).1,
    requests-get_token now p,
    no_requests rest (get_token parse now p).0 (inflight_kept parse now p h),
  )

  at_most_one : (times : List ℕ) (p : Provider) → requests (get_tokens parse times p).1 ≤ 1
  unfolding get_tokens
  at_most_one [] p = omega arith
  at_most_one (now ∷ rest) p = ground (
    arith,
    requests-cons (get_token parse now p).1 (get_tokens parse rest (get_token parse now p).0).1,
    requests-get_token now p,
    at_most_one rest (get_token parse now p).0,
    no_requests rest (get_token parse now p).0,
  )

  -- However often `getToken` is called before a request is over, at most one request is sent, and
  -- none if one is in flight already.
  pub one_request :
      (times : List ℕ) (p : Provider)
      → requests (get_tokens parse times p).1 ≤ (if p.inflight_token_request then 0 else 1)
  one_request times p = ground (arith, at_most_one times p, no_requests times p)
