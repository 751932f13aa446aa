-- ===== src/Signature/Tests.antt =====
-- Configurations on which the theorems about src/lib/ZBWorkerSignature.ts are run.
use zeebe_client_node_js.Base.{String, ◌≡◌, refl, if◌then◌else◌, pos}
use zeebe_client_node_js.Signature.Values.{
  undefined, null, number, string, object, Fields, end, field, is_nullish, lookup,
}
use zeebe_client_node_js.Signature.Clean
use zeebe_client_node_js.Signature.Clean.{clean_empty, clean_value, kept}
use zeebe_client_node_js.Signature.Decode.{batch_options}
use zeebe_client_node_js.Signature.Options

-- A configuration with a missing option, a null one below, and a value of a class.
abbrev configuration : Fields
configuration = field "taskType" (string "pay") (
    field "timeout" undefined (
      field "retry" null (
        field "oAuth" (object 0 (field "clientId" (string "c") (field "cacheDir" null end)))
          (field "stdout" (object 7 (field "level" (string "INFO") end)) end))))

cleaned :
    clean_empty configuration
    ≡ field "taskType" (string "pay") (
        field "oAuth"
          (object 0 (field "clientId" (string "c") end))
          (field "stdout" (object 0 (field "level" (string "INFO") end)) end))
unfolding clean_empty
cleaned = refl

clean_empty_lem_example :
    Clean.IsClean (clean_empty configuration)
    × ((k : String)
        → lookup k (clean_empty configuration) ≡ kept (clean_value (lookup k configuration)))
    × (clean_empty (clean_empty configuration) ≡ clean_empty configuration)
clean_empty_lem_example =
    Clean.clean_empty_lem configuration (refl, (refl, (refl, (refl, (refl, tt)))))

abbrev client : Fields
client = field "timeout" (number (pos 9)) end

lookup-batch_options_example :
    lookup "timeout" (batch_options client (string "INFO") (object 0 configuration)) ≡ (
      if is_nullish (Options.own "timeout" configuration)
      then lookup "timeout" (Options.inherited client (string "INFO"))
      else Options.own "timeout" configuration)
lookup-batch_options_example =
    Options.lookup-batch_options client (string "INFO") 0 configuration "timeout"
      (refl, (refl, (refl, (refl, (refl, tt)))))
