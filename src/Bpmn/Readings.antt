-- ===== src/Bpmn/Readings.antt =====
-- Reading the elements of a list one by one, as the scans of src/lib/BpmnParser.ts do.
use zeebe_client_node_js.Variables.{◌>>=◌}
use zeebe_client_node_js.Base.{
  ◌≡◌, inl, inr, refl, Option, none, some, List, [], ◌∷◌, ◌++◌, String, arith, Option-cases, subst,
}
use zeebe_client_node_js.Bpmn.Unique.{◌∈◌}
use zeebe_client_node_js.Bpmn.Document.{Value, Items, nil, item, map_items}

abbrev pub items : Items → List Value
items nil = []
items (item v vs) = v ∷ items vs

module _ (read : Value → Option (Option String)) where
  abbrev pub each : List Value → Option (List (Option String))
  each [] = some []
  each (v ∷ vs) = do x ← read v; xs ← each vs; some (x ∷ xs)

  pub each-append :
      (xs ys : List Value) → each (xs ++ ys) ≡ (each xs >>= λ us. each ys >>= λ vs. some (us ++ vs))
  each-append [] ys = ground arith
  each-append (x ∷ xs) ys = ground (arith, each-append xs ys)

  pub each-items : (vs : Items) → map_items read vs ≡ each (items vs)
  each-items nil = refl
  each-items (item v vs) = ground (arith, each-items vs)

  each_cons :
      (v : Value) (vs : List Value) (xs : List (Option String))
      → each (v ∷ vs) ≡ some xs
      → (x : Option String) × (ys : List (Option String)) × (read v ≡ some x)
        × (each vs ≡ some ys)
        × (xs ≡ x ∷ ys)
  each_cons v vs xs h = elim (Option-cases (read v)) [
    | inl e ↦ absurd (ground arith)
    | inr (x, e) ↦ elim (Option-cases (each vs)) [
      | inl k ↦ absurd (ground arith)
      | inr (ys, k) ↦ (x, ys, e, k, ground arith)
    ]
  ]

  pub each_all :
      (v : Value) (vs : List Value) (xs : List (Option String))
      → each vs ≡ some xs
      → v ∈ vs
      → (x : Option String) × (read v ≡ some x) × (x ∈ xs)
  each_all v [] xs h k = elim k [ ]
  each_all v (w ∷ vs) xs h k =
      let (y, ys, p, q, r) = each_cons w vs xs h in
      elim k [
        | inl e ↦ (y, rw e p, rw r (inl refl))
        | inr e ↦ let (x, a, b) = each_all v vs ys q e in (x, a, rw r (inr b))
      ]

  pub each_any :
      (x : Option String) (vs : List Value) (xs : List (Option String))
      → each vs ≡ some xs
      → x ∈ xs
      → (v : Value) × (v ∈ vs) × (read v ≡ some x)
  each_any x [] xs h k = absurd (ground arith)
  each_any x (w ∷ vs) xs h k =
      let (y, ys, p, q, r) = each_cons w vs xs h in
      elim (subst (λ t. x ∈ t) r k) [
        | inl e ↦ (w, inl refl, rw e p)
        | inr e ↦ let (v, a, b) = each_any x vs ys q e in (v, inr a, b)
      ]

  pub each-none : (vs : List Value) → each vs ≡ none → (v : Value) × (v ∈ vs) × (read v ≡ none)
  each-none [] h = absurd (ground arith)
  each-none (w ∷ vs) h = elim (Option-cases (read w)) [
    | inl e ↦ (w, inl refl, e)
    | inr (x, e) ↦ let (v, a, b) = each-none vs (ground arith) in (v, inr a, b)
  ]
