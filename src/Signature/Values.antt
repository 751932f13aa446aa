-- ===== src/Signature/Values.antt =====
-- The JavaScript values that src/lib/ZBWorkerSignature.ts handles, and the keys of an object.
use text.Mathlib.Text.{◌==◌}
use text.Mathlib.TextEquality.{eq_iff}
use zeebe_client_node_js.Base.{
  ℕ, ◌≡◌, refl, Bool, true, false, some, String, ℤ, pos, negsuc, if◌then◌else◌, arith, truthy,
}

-- Functions and prototypes are known by their identity; a plain object has the prototype 0. The
-- fields of an array are its elements, by index. A value is finite: no object contains itself.
mutual
  pub data Value : Type 0 where
    undefined : Value
    null : Value
    boolean : Bool → Value
    number : ℤ → Value
    string : String → Value
    function : ℕ → Value
    array : Fields → Value
    object : ℕ → Fields → Value

  pub data Fields : Type 0 where
    end : Fields
    field : String → Value → Fields → Fields

-- `v == null`
abbrev pub is_nullish : Value → Bool
is_nullish undefined = true
is_nullish null = true
is_nullish _ = false

abbrev pub is_truthy : Value → Bool
is_truthy undefined = false
is_truthy null = false
is_truthy (boolean b) = b
is_truthy (number n) = elim n [
  | pos n ↦ elim n [ Prim.Native.Nat.zero ↦ false | _ ↦ true ]
  | negsuc _ ↦ true
]
is_truthy (string s) = truthy (some s)
is_truthy (function n) = true
is_truthy (array fs) = true
is_truthy (object p fs) = true

-- The value of a key: undefined where it is missing.
abbrev pub lookup : String → Fields → Value
lookup k end = undefined
lookup k (field j v fs) = let rest = lookup k fs in if j == k then v else rest

abbrev pub get : String → Value → Value
get k (array fs) = lookup k fs
get k (object p fs) = lookup k fs
get k _ = undefined

-- `{ ...fs, [k]: v }`
abbrev pub set : String → Value → Fields → Fields
set k v end = field k v end
set k v (field j w fs) = let rest = set k v fs in if j == k then field j v fs else field j w rest

-- `{ ...fs, ...gs }`
abbrev pub spread : Fields → Fields → Fields
spread fs end = fs
spread fs (field k v gs) = spread (set k v fs) gs

abbrev pub has : String → Fields → Bool
has k end = false
has k (field j v fs) = let rest = has k fs in if j == k then true else rest

pub lookup-set :
    (j k : String) (v : Value) (fs : Fields)
    → lookup j (set k v fs) ≡ (if k == j then v else lookup j fs)
lookup-set j k v end = refl
lookup-set j k v (field i w fs) =
    ground (arith, eq_iff i k, eq_iff i j, eq_iff k j, lookup-set j k v fs)
