-- ===== src/Client/Tests/Results.antt =====
-- A process instance with a result, behind a gateway that is busy at first (src/zb/ZBClient.ts).
use zeebe_client_node_js.Base.{
  ℕ, zero, suc, ◌<◌, ◌≡◌, refl, true, false, Option, none, some, String, pos, arith, includes,
  if◌then◌else◌,
}
use text.Mathlib.Text.{◌==◌}
use zeebe_client_node_js.Client.Retry.{
  Outcome, resolves, rejects, Circumstances, Within, retry_budget,
}
use zeebe_client_node_js.Client.Attempts.{IsTransient}
use zeebe_client_node_js.Client.Results.{gives, with_result}
use zeebe_client_node_js.Client.Parsed.{Response, with_document, answered, with_result_decided}
use zeebe_client_node_js.Client.Tests.{busy}
use zeebe_client_node_js.Client.Tests.Promises.{promises}

-- A parser that knows one document.
abbrev parse : String → Option ℕ
parse s = if s == "{}" then some 0 else none

abbrev response : Response String
response = record {
  process_definition_key = "1";
  bpmn_process_id = "order";
  version = pos 2;
  process_instance_key = "3";
  variables = "";
  tenant_id = "";
}

abbrev found : Outcome (Response String) → Circumstances (Response String)
found outcome = record {
  closing = false;
  closed_before = false;
  outcome = outcome;
  closed_after = false;
}

abbrev world : ℕ → Circumstances (Response String)
world zero = found (rejects busy)
world (suc zero) = found (rejects busy)
world (suc (suc n)) = found (resolves response)

world-busy : (m : ℕ) → m < 1 → IsTransient (world (suc m)) busy
unfolding includes
world-busy zero l = record {
  open_client = refl;
  open_channel = refl;
  rejected_with = refl;
  transient = refl;
}
world-busy (suc m) l = absurd (omega arith)

one_of_two : Within (retry_budget (pos 2)) 1
unfolding retry_budget
one_of_two = omega arith

with_result_decided_example :
    with_result parse promises true (pos 2) world ≡ some (gives (with_document response 0))
with_result_decided_example =
    with_result_decided parse promises (pos 2) world (λ n. busy) 1
      (gives (with_document response 0)) world-busy (answered response 0 refl refl refl refl)
      one_of_two
