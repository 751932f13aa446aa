-- ===== src/Variables/RoundTrip.antt =====
-- The JSON functions that src/lib/stringifyVariables.ts and src/zb/ZBClient.ts call, with their laws.
use zeebe_client_node_js.Base.{◌≡◌, Option, none, some, String}

-- `JSON.parse` and `JSON.stringify`, as documented: parsing undoes printing, and the empty text is not
-- JSON. `none` is a text that `parse` rejects; `empty` is the document `{}`.
pub record Json (J : Type 0) : Type 0 where
  pub parse : String → Option J
  pub stringify : J → String
  pub empty : J
  pub parse-stringify : (j : J) → parse (stringify j) ≡ some j
  pub parse_empty_text : parse "" ≡ none
