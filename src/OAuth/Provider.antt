-- ===== src/OAuth/Provider.antt =====
-- The provider's state and its operations. Each function is a piece of code that runs without
-- interruption; times are milliseconds. The token endpoint, the file system and JSON enter by their
-- answers: the text of a response, the text of the cache file, and `parse` and `print`.
use Prim.Native.String
use zeebe_client_node_js.Base.{
  ℕ, ◌+◌, ◌-◌, ◌*◌, Bool, true, false, Option, none, some, List, [], ◌∷◌, String, if◌then◌else◌,
  leb, ◌==◌, min,
}

pub record Token : Type 0 where
  pub access_token : String
  pub scope : String
  pub expires_in : ℕ
  pub token_type : String
  pub expiry : ℕ

-- `token_cache` is the entry for the provider's own client id, the only one that the source uses.
-- `expiry_timer` is the timer that was started last, by the time at which it fires; `timers` are all
-- that are pending. `file` is the text of the cache file.
pub record Provider : Type 0 where
  pub use_file_cache : Bool
  pub token_cache : Option Token
  pub file : Option String
  pub current_backoff_time : ℕ
  pub inflight_token_request : Bool
  pub expiry_timer : Option ℕ
  pub timers : List ℕ

abbrev pub backoff_token_endpoint_max : ℕ
backoff_token_endpoint_max = 60000

-- The constructor; `writable` says that the cache directory is there (or was made) and can be
-- written to. `none` is the error that it throws.
unfoldable pub new_provider : Bool → Bool → Option String → Option Provider
new_provider cache_on_disk writable file =
    if cache_on_disk then (if writable then some fresh else none) else some fresh
  where
    fresh : Provider
    fresh = record {
      use_file_cache = cache_on_disk;
      token_cache = none;
      file = file;
      current_backoff_time = 1;
      inflight_token_request = false;
      expiry_timer = none;
      timers = [];
    }

-- `cachedTokenFile`
unfoldable pub cached_token_file : String → String → String
cached_token_file cache_dir client_id =
    String.◌++◌ cache_dir (String.◌++◌ "/oauth-token-" (String.◌++◌ client_id ".json"))

-- `isExpired`
abbrev pub is_expired : ℕ → Token → Bool
is_expired now token = leb token.expiry now

-- `startExpiryTimer`. `Math.max(validityPeriod - 1000, 0)` is the truncated difference.
unfoldable pub start_expiry_timer : ℕ → Token → Provider → Provider
start_expiry_timer now token p =
    if leb token.expiry now
    then record p { token_cache = none }
    else let due = now + (token.expiry - now - 1000) in
      record p { expiry_timer = some due; timers = due ∷ p.timers }

-- The callback of an expiry timer that is due at `due`.
abbrev pub remove_timer : ℕ → List ℕ → List ℕ
remove_timer due [] = []
remove_timer due (d ∷ rest) = if d == due then rest else d ∷ remove_timer due rest

unfoldable pub expiry_timer_fires : ℕ → Provider → Provider
expiry_timer_fires due p = record p {
  token_cache = none;
  file = if p.use_file_cache then none else p.file;
  timers = remove_timer due p.timers;
}

-- `stopExpiryTimer`
unfoldable pub stop_expiry_timer : Provider → Provider
stop_expiry_timer p = elim p.expiry_timer [
  | none ↦ p
  | some due ↦ record p { timers = remove_timer due p.timers }
]

-- What `getToken` answers: a cached token, the promise of the request that is in flight, or that of
-- a new request, to be sent after a delay.
pub data Answer : Type 0 where
  cached : String → Answer
  in_flight : Answer
  requested : ℕ → Answer

-- The end of `fromFileCache`, for a token that was read.
abbrev use_file_token : ℕ → Provider → Option Token → Provider × Option Token
use_file_token now p none = (p, none)
use_file_token now p (some token) =
    if is_expired now token
    then (p, none)
    else (start_expiry_timer now token (record p { token_cache = some token }), some token)

abbrev pub parse_file : (String → Option Token) → Option String → Option Token
parse_file parse none = none
parse_file parse (some text) = parse text

-- The end of `getToken`, when no cache has a token.
abbrev request_token : Provider → Provider × Answer
request_token p =
    if p.inflight_token_request
    then (p, in_flight)
    else (record p { inflight_token_request = true }, requested p.current_backoff_time)

abbrev answer_file : Provider × Option Token → Provider × Answer
answer_file (p, none) = request_token p
answer_file (p, some token) = (p, cached token.access_token)

module _ (parse : String → Option Token) where
  -- `fromFileCache`
  unfoldable pub from_file_cache : ℕ → Provider → Provider × Option Token
  unfolding start_expiry_timer
  from_file_cache now p = use_file_token now p (parse_file parse p.file)

  -- `getToken`
  unfoldable pub get_token : ℕ → Provider → Provider × Answer
  unfolding from_file_cache
  get_token now p = elim p.token_cache [
    | some token ↦ (p, cached token.access_token)
    | none ↦ if p.use_file_cache then answer_file (from_file_cache now p) else request_token p
  ]

-- The `catch` of a request: the back-off time grows and the request is over.
unfoldable pub request_fails : Provider → Provider
request_fails p =
    let base = if p.current_backoff_time == 1 then 1000 else p.current_backoff_time in
    record p {
      current_backoff_time = min (base * 2) backoff_token_endpoint_max;
      inflight_token_request = false;
    }

-- A response of the token endpoint: its text is parsed, the expiry is set, the token is cached and
-- its timer is started. The second part is the text that `toFileCache` writes, the third the token
-- that the promise resolves to.
abbrev received : (Token → String) → ℕ → Provider → Token → Provider × Option String × Option String
received print now p token =
    let token' = record token { expiry = now + token.expires_in * 1000 } in
    let p' = start_expiry_timer now token' (record p { token_cache = some token' }) in
    (
      record p' { current_backoff_time = 1; inflight_token_request = false },
      if p.use_file_cache then some (print token') else none,
      some token'.access_token,
    )

abbrev responds :
    (Token → String) → ℕ → Provider → Option Token → Provider × Option String × Option String
responds print now p none = (request_fails p, none, none)
responds print now p (some token) = received print now p token

module _ (parse : String → Option Token) (print : Token → String) where
  unfoldable pub request_succeeds : ℕ → String → Provider → Provider × Option String × Option String
  unfolding start_expiry_timer request_fails
  request_succeeds now text p = responds print now p (parse text)

-- `fs.writeFile` has written the text.
unfoldable pub file_written : String → Provider → Provider
file_written text p = record p { file = some text }
