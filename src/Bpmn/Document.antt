-- ===== src/Bpmn/Document.antt =====
-- The values that the XML parser gives to src/lib/BpmnParser.ts, and how the code reads them.
use zeebe_client_node_js.Variables.{◌>>=◌}
use text.Mathlib.Text.{◌==◌}
use zeebe_client_node_js.Base.{Bool, true, Option, none, some, List, [], ◌∷◌, String, if◌then◌else◌}

-- Attributes are texts under a key of their own kind (the source prefixes it with `@_`). The text of
-- an element, which the parser gives as a text, a number or a Boolean, is `scalar`: it has no keys,
-- and the code reads of it only whether it is truthy.
mutual
  pub data Value : Type 0 where
    scalar : Bool → Value
    array : Items → Value
    object : Fields → Value

  pub data Items : Type 0 where
    nil : Items
    item : Value → Items → Items

  pub data Fields : Type 0 where
    end : Fields
    attribute : String → String → Fields → Fields
    element : String → Value → Fields → Fields

abbrev pub element_of : String → Fields → Option Value
element_of k end = none
element_of k (attribute a t fs) = element_of k fs
element_of k (element e v fs) = if e == k then some v else element_of k fs

abbrev pub attribute_of : String → Fields → Option String
attribute_of k end = none
attribute_of k (element e v fs) = attribute_of k fs
attribute_of k (attribute a t fs) = if a == k then some t else attribute_of k fs

-- `v[k]`: undefined on a text and on an array.
abbrev pub get : String → Value → Option Value
get k (scalar s) = none
get k (array vs) = none
get k (object fs) = element_of k fs

-- `v['@_' + k]`.
abbrev pub get_attribute : String → Value → Option String
get_attribute k (scalar s) = none
get_attribute k (array vs) = none
get_attribute k (object fs) = attribute_of k fs

-- `toArray`.
abbrev pub to_array : Value → Items
to_array (scalar s) = item (scalar s) nil
to_array (array vs) = vs
to_array (object fs) = item (object fs) nil

-- Calls `f` on each, stopping at the first that throws.
abbrev pub map_items : {B : Type 0} → (Value → Option B) → Items → Option (List B)
map_items f nil = some []
map_items f (item v vs) = do x ← f v; xs ← map_items f vs; some (x ∷ xs)

abbrev pub truthy : Value → Bool
truthy (scalar b) = b
truthy (array vs) = true
truthy (object fs) = true
