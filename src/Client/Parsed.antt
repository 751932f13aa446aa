-- ===== src/Client/Parsed.antt =====
-- What the promise of `createProcessInstanceWithResult` comes to (src/zb/ZBClient.ts).
use mathlib.Core.Option
use zeebe_client_node_js.Base.{
  ℕ, suc, ◌<◌, ◌≡◌, refl, ap, ◌∙◌, true, false, Option, none, some, String, ℤ, ◌||◌,
}
use zeebe_client_node_js.Variables.{parse_variables}
use zeebe_client_node_js.Client.Retry.{
  OperationError, Circumstances, Final, resolved, rejected, resolves, rejects, PromiseRetry,
  is_network_error, is_backpressure, Within, retry_budget,
}
use zeebe_client_node_js.Client.Attempts.{
  IsTransient, Ends, succeeded, refused, client_closed, operation_settles,
}
use zeebe_client_node_js.Client.Results.{
  CreateProcessInstanceWithResultResponse, operation_failed, type_error, syntax_error, Result,
  gives, throws, parse_result, with_result,
}

abbrev pub Response : Type 0 → Type 0
Response V = CreateProcessInstanceWithResultResponse V

-- The response with its document in place of the text.
abbrev pub with_document : {J : Type 0} → Response String → J → Response J
with_document r v = record {
  process_definition_key = r.process_definition_key;
  bpmn_process_id = r.bpmn_process_id;
  version = r.version;
  process_instance_key = r.process_instance_key;
  variables = v;
  tenant_id = r.tenant_id;
}

-- The text that is parsed: an empty one stands for an empty document.
abbrev pub document_text : String → String
document_text String.[] = "{}"
document_text (String.◌∷◌ c s) = String.◌∷◌ c s

module _ {J : Type 0} (parse : String → Option J) where
  -- The result, by what the attempt that is not repeated finds.
  pub data Decides (c : Circumstances (Response String)) : Result (Response J) → Type 0 where
    answered :
        (r : Response String) (v : J)
        → c.closing ≡ false
        → c.closed_before ≡ false
        → c.outcome ≡ resolves r
        → parse (document_text r.variables) ≡ some v
        → Decides c (gives (with_document r v))
    garbled :
        (r : Response String)
        → c.closing ≡ false
        → c.closed_before ≡ false
        → c.outcome ≡ resolves r
        → parse (document_text r.variables) ≡ none
        → Decides c (throws syntax_error)
    failed :
        (e : OperationError)
        → c.closing ≡ false
        → c.closed_before ≡ false
        → c.closed_after ≡ false
        → c.outcome ≡ rejects e
        → (is_network_error e || is_backpressure e) ≡ false
        → Decides c (throws (operation_failed e))
    closed : (c.closing || c.closed_before) ≡ true → Decides c (throws type_error)

  text_parsed : (s : String) → parse_variables parse (some s) ≡ parse (document_text s)
  unfolding parse_variables
  text_parsed String.[] = refl
  text_parsed (String.◌∷◌ c s) = refl

  Decides-Ends :
      (c : Circumstances (Response String)) (d : Result (Response J))
      → Decides c d
      → (f : Final (Response String)) × Ends c f × (parse_result parse f ≡ d)
  unfolding parse_result
  Decides-Ends c _ (answered r v p q o h) =
      (resolved (some r), succeeded r p q o refl, rw (text_parsed r.variables, h) refl)
  Decides-Ends c _ (garbled r p q o h) =
      (resolved (some r), succeeded r p q o refl, rw (text_parsed r.variables, h) refl)
  Decides-Ends c _ (failed e p q s o t) = (rejected e, refused e p q s o t refl, refl)
  Decides-Ends c _ (closed p) = (resolved none, client_closed p refl, refl)

  -- With retries on, n attempts that meet a network error or back pressure, within the budget, are
  -- repeated, and the next one decides: an answer whose variables are JSON gives that answer with
  -- its variables parsed, one whose variables are not throws, any other error of the operation
  -- rejects the promise, and so does a client that is closing: the read of `undefined` throws a
  -- TypeError, where the other operations resolve to undefined.
  pub with_result_decided :
      (p : PromiseRetry (Response String)) (max_retries : ℤ)
      (world : ℕ → Circumstances (Response String)) (errors : ℕ → OperationError) (n : ℕ)
      (d : Result (Response J))
      → ((m : ℕ) → m < n → IsTransient (world (suc m)) (errors m))
      → Decides (world (suc n)) d
      → Within (retry_budget max_retries) n
      → with_result parse p true max_retries world ≡ some d
  unfolding with_result
  with_result_decided p max_retries world errors n d before last enough =
      let (f, ends, e) = Decides-Ends (world (suc n)) d last in
      ap (Option.map (parse_result parse))
        (operation_settles p max_retries world errors n f before ends enough)
      ∙ ap some e
