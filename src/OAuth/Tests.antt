-- ===== src/OAuth/Tests.antt =====
-- The token provider at concrete inputs (src/lib/OAuthProvider.ts).
use zeebe_client_node_js.Base.{
  ◌≤◌, ◌≡◌, refl, true, false, Option, none, some, List, [], ◌∷◌, String, arith,
}
use zeebe_client_node_js.OAuth.Provider.{
  Provider, Token, cached, get_token, request_succeeds, file_written,
}
use zeebe_client_node_js.OAuth.Backoff.{fail_times, backoff_delays}
use zeebe_client_node_js.OAuth.Sharing.{get_tokens, requests, one_request}
use zeebe_client_node_js.OAuth.Freshness.{Event, responded, token_wanted}
use zeebe_client_node_js.OAuth.Persistence.{file_shared}

-- A new provider that caches on disk, with no file yet.
abbrev provider : Provider
provider = record {
  use_file_cache = true;
  token_cache = none;
  file = none;
  current_backoff_time = 1;
  inflight_token_request = false;
  expiry_timer = none;
  timers = [];
}

-- Each text stands for a token that carries it, which is valid for 60 seconds.
abbrev token_of : String → Token
token_of text = record {
  access_token = text;
  scope = "";
  expires_in = 60;
  token_type = "";
  expiry = 0;
}

abbrev parse : String → Option Token
parse text = some (token_of text)

abbrev print : Token → String
print token = token.access_token

backoff_delays_example :
    ((fail_times 3 provider).current_backoff_time ≡ 8000)
    × ((request_succeeds parse print 5 "t" (fail_times 2 provider)).0.current_backoff_time ≡ 1)
backoff_delays_example = backoff_delays 2 provider parse print 5 "t" (token_of "t") refl refl

one_request_example : requests (get_tokens parse (10 ∷ 20 ∷ []) provider).1 ≤ 1
one_request_example = one_request parse (10 ∷ 20 ∷ []) provider

-- A token is wanted at time 10, and received at time 1000.
abbrev events : List Event
events = token_wanted 10 ∷ responded 1000 "t" ∷ []

-- A parser that gives the expiry too, as a cache file has it.
abbrev read_back : String → Option Token
read_back text = some (record (token_of text) { expiry = 60000 })

-- Another provider finds the file with the token that was received at time 0.
file_shared_example :
    (written : String) × ((request_succeeds read_back print 0 "t" provider).1 ≡ some written)
    × ((get_token read_back 59999 (file_written written provider)).1 ≡ cached "t")
file_shared_example =
    file_shared read_back print 0 59999 "t" provider provider
      (record (token_of "t") { expiry = 60000 }) refl refl refl refl refl (omega arith)
