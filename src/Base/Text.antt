-- ===== src/Base/Text.antt =====
-- What the program does with texts: `includes`, `split(…)[0]` and comparisons that ignore case.
use Prim.Native.Nat.{ℕ, ◌+◌}
use Prim.Native.Char.{code}
use Prim.Native.String.{String, slice}
use mathlib.Core.Bool.{Bool, true, false, ◌&&◌}
use mathlib.Core.Option.{none, some}
use mathlib.Core.List.{List, [], ◌∷◌, map}
use text.Mathlib.Text.{find?}
use zeebe_client_node_js.Base.Tests.{leb, ◌==◌, if◌then◌else◌}

abbrev pub codes : String → List ℕ
codes String.[] = []
codes (String.◌∷◌ c s) = code c ∷ codes s

-- `s.includes(part)`
unfoldable pub includes : String → String → Bool
includes s part = elim (find? s part) [ none ↦ false | some _ ↦ true ]

-- `s.split(separator)[0]`
unfoldable pub split_head : String → String → String
split_head s separator = elim (find? s separator) [ none ↦ s | some i ↦ slice s 0 i ]

abbrev lower : ℕ → ℕ
lower c = if leb b'A' c && leb c b'Z' then c + 32 else c

abbrev same_codes : List ℕ → List ℕ → Bool
same_codes [] [] = true
same_codes (a ∷ as') (b ∷ bs) = a == b && same_codes as' bs
same_codes _ _ = false

-- `s.toLowerCase() === word`, for a word of the letters that no character outside ASCII is lowered to.
unfoldable pub is_word : String → String → Bool
is_word s word = same_codes (map lower (codes s)) (codes word)
