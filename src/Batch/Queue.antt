-- ===== src/Batch/Queue.antt =====
-- The queue of src/lib/Queue.ts. Its front is the head of the list.
use zeebe_client_node_js.Base.{
  ℕ, Bool, Option, none, some, List, [], ◌∷◌, ◌++◌, ltb, length as length_list,
}

abbrev pub Queue : Type 0 → Type 0
Queue T = List T

module _ {T : Type 0} where
  unfoldable pub push : T → Queue T → Queue T
  push element q = q ++ element ∷ []

  unfoldable pub pop : Queue T → Queue T × Option T
  pop [] = ([], none)
  pop (x ∷ q) = (q, some x)

  -- As written: true when the queue has elements.
  unfoldable pub is_empty : Queue T → Bool
  is_empty q = ltb 0 (length_list q)

  unfoldable pub drain : Queue T → Queue T × List T
  drain q = ([], q)

  unfoldable pub length : Queue T → ℕ
  length q = length_list q
