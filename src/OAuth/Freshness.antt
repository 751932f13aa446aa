-- ===== src/OAuth/Freshness.antt =====
-- No expired token is given out (src/lib/OAuthProvider.ts).
use zeebe_client_node_js.Base.{ℕ, ◌<◌, ◌≡◌, ◌⊎◌, Option, none, some, List, [], ◌∷◌, String, arith}
use zeebe_client_node_js.OAuth.Provider.{
  Provider, Token, get_token, start_expiry_timer, expiry_timer_fires, request_fails,
  request_succeeds, file_written, parse_file,
}

-- A timer is pending that fires before the time.
abbrev pub FiresBefore : ℕ → List ℕ → Type 0
FiresBefore t [] = ⊥
FiresBefore t (d ∷ rest) = (d < t) ⊎ FiresBefore t rest

-- The token in memory, if there is one, will be dropped before it expires.
abbrev Watched : Option Token → List ℕ → Type 0
Watched none timers = Unit
Watched (some token) timers = FiresBefore token.expiry timers

pub record Inv (p : Provider) : Type 0 where
  pub watched : Watched p.token_cache p.timers

start-Inv :
    (now : ℕ) (token : Token) (p : Provider)
    → p.token_cache ≡ some token
    → Inv (start_expiry_timer now token p)
unfolding start_expiry_timer
start-Inv now token p h = ground arith

-- What may happen to a provider before its client is closed.
pub data Event : Type 0 where
  timer_fires : ℕ → Event
  token_wanted : ℕ → Event
  request_failed : Event
  responded : ℕ → String → Event
  file_changed : String → Event

module _ (parse : String → Option Token) (print : Token → String) where
  unfoldable pub happens : Provider → Event → Provider
  happens p (timer_fires due) = expiry_timer_fires due p
  happens p (token_wanted now) = (get_token parse now p).0
  happens p request_failed = request_fails p
  happens p (responded now text) = (request_succeeds parse print now text p).0
  happens p (file_changed text) = file_written text p

  unfoldable pub history : Provider → List Event → Provider
  history p [] = p
  history p (e ∷ rest) = history (happens p e) rest

  -- The token that the provider has: the one in memory, or else the one in the cache file.
  abbrev pub Holds : Provider → Token → Type 0
  Holds p token =
      (p.token_cache ≡ some token)
      ⊎ ((p.token_cache ≡ none) × (parse_file parse p.file ≡ some token))
