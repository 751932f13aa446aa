-- ===== src/OAuth/Persistence.antt =====
-- A token that one provider has cached on disk serves another (src/lib/OAuthProvider.ts).
use zeebe_client_node_js.Base.{ℕ, ◌+◌, ◌*◌, ◌<◌, ◌≡◌, true, Option, none, some, String, arith}
use zeebe_client_node_js.OAuth.Provider.{
  Provider, Token, cached, get_token, request_succeeds, file_written,
}

-- A provider that caches on disk receives a token, whose JSON text reads back, and writes its file;
-- another provider of the same client, with no token in memory, that finds this file gives out the same
-- token, without a request, until it expires.
pub file_shared :
    (parse : String → Option Token) (print : Token → String) (now later : ℕ) (text : String)
    (p q : Provider) (token : Token)
    → parse (print (record token { expiry = now + token.expires_in * 1000 }))
      ≡ some (record token { expiry = now + token.expires_in * 1000 })
    → parse text ≡ some token
    → p.use_file_cache ≡ true
    → q.use_file_cache ≡ true
    → q.token_cache ≡ none
    → later < now + token.expires_in * 1000
    → (written : String) × ((request_succeeds parse print now text p).1 ≡ some written)
      × ((get_token parse later (file_written written q)).1 ≡ cached token.access_token)
unfolding request_succeeds get_token file_written
file_shared parse print now later text p q token round parsed disk disk' empty before =
    let t = record token { expiry = now + token.expires_in * 1000 } in
    (print t, ground arith, ground (arith, round))
