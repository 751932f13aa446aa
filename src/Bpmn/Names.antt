-- ===== src/Bpmn/Names.antt =====
-- The names that src/lib/BpmnParser.ts makes of a task type, and the texts that it joins.
-- `toUpperCase` is a parameter; `split` is by a separator of one character.
use Prim.Native.Char.{Char, code}
use Prim.Native.String.{◌++◌}
use zeebe_client_node_js.Variables.{◌>>=◌}
use zeebe_client_node_js.Base.{ℕ, Option, none, some, List, [], ◌∷◌, String, if◌then◌else◌, ◌==◌}

-- `s.split(separator)`: never empty.
abbrev pub attach : Char → List String → List String
attach c [] = String.◌∷◌ c String.[] ∷ []
attach c (part ∷ parts) = String.◌∷◌ c part ∷ parts

unfoldable pub split : ℕ → String → List String
split separator String.[] = "" ∷ []
split separator (String.◌∷◌ c s) =
    let rest = split separator s in if code c == separator then "" ∷ rest else attach c rest

-- `parts.join(separator)`
unfoldable pub join : String → List String → String
join separator [] = ""
join separator (part ∷ []) = part
join separator (part ∷ (next ∷ parts)) = part ++ separator ++ join separator (next ∷ parts)

module _ (upper : String → String) where
  -- `([f, ...r]) => [f.toUpperCase(), ...r].join('')`: an empty part has no `f`, and the call throws.
  abbrev pub capital : String → Option String
  capital String.[] = none
  capital (String.◌∷◌ f r) = some (upper (String.◌∷◌ f String.[]) ++ r)

  abbrev pub capitals : List String → Option (List String)
  capitals [] = some []
  capitals (part ∷ parts) = do first ← capital part; rest ← capitals parts; some (first ∷ rest)

  unfoldable pub get_safe_name : String → Option String
  get_safe_name task_type = do
    words ← capitals (split b'_' task_type)
    parts ← capitals (split b'-' (join "" words))
    some (join "" parts)

  unfoldable pub get_constant_name : String → String
  get_constant_name name = upper (join "_" (split b' ' (join "_" (split b'-' name))))
