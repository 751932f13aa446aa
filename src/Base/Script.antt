-- ===== src/Base/Script.antt =====
-- What the source's language does with a value that may be missing. `none` is `undefined` (or
-- `null`); the empty string and the number 0 are falsy.
use Prim.Native.Nat.{ℕ, zero, suc}
use Prim.Native.String.{String}
use mathlib.Core.Bool.{Bool, true, false}
use mathlib.Core.Option.{Option, none, some}

-- `a ?? b`
abbrev pub nullish {ℓ} : {A : Type ℓ} → Option A → A → A
nullish none b = b
nullish (some a) b = a

-- `a ?? b` where `b` may be missing too
abbrev pub nullish_option {ℓ} : {A : Type ℓ} → Option A → Option A → Option A
nullish_option none b = b
nullish_option (some a) b = some a

-- `!!s`
abbrev pub truthy : Option String → Bool
truthy none = false
truthy (some String.[]) = false
truthy (some (String.◌∷◌ c s)) = true

-- `s || t` on strings
abbrev pub or_string : Option String → Option String → Option String
or_string none t = t
or_string (some String.[]) t = t
or_string (some (String.◌∷◌ c s)) t = some (String.◌∷◌ c s)

-- `n || m` on numbers
abbrev pub or_number : Option ℕ → ℕ → ℕ
or_number none m = m
or_number (some zero) m = m
or_number (some (suc n)) m = suc n

-- An optional flag is set: `x === true`
abbrev pub is_true : Option Bool → Bool
is_true none = false
is_true (some b) = b

-- An optional flag is cleared: `x === false`
abbrev pub is_false : Option Bool → Bool
is_false none = false
is_false (some true) = false
is_false (some false) = true

abbrev pub is_some {ℓ} : {A : Type ℓ} → Option A → Bool
is_some none = false
is_some (some a) = true
