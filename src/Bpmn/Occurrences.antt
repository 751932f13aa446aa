-- ===== src/Bpmn/Occurrences.antt =====
-- What the documents of src/lib/BpmnParser.ts hold, and that the scans collect it: the elements
-- under a key, in the order of the document.
use zeebe_client_node_js.Variables.{◌>>=◌}
use text.Mathlib.Text.{◌==◌}
use zeebe_client_node_js.Base.{
  ◌≡◌, ◌↔◌, inl, inr, refl, Option, none, some, List, [], ◌∷◌, ◌++◌, String, if◌then◌else◌, arith,
  Option-cases, Bool-cases, sym, subst,
}
use zeebe_client_node_js.Bpmn.Order.{text_order}
use zeebe_client_node_js.Bpmn.Unique.{◌∈◌, ∈-append, ∈-to_set-sort}
use zeebe_client_node_js.Bpmn.Document.{
  Value, scalar, array, object, Items, nil, item, Fields, end, attribute, element, to_array,
  map_items,
}
use zeebe_client_node_js.Bpmn.Readings.{
  items, each, each-append, each-items, each_all, each_any, each-none,
}
use zeebe_client_node_js.Bpmn.Scan.{scan, scan_items, scan_fields, sorted_set, concat}

module _ (key : String) where
  unfoldable mutual
    pub found : Value → List Value
    found (scalar s) = []
    found (array vs) = found_items vs
    found (object fs) = found_fields fs

    pub found_items : Items → List Value
    found_items nil = []
    found_items (item v vs) = found v ++ found_items vs

    pub found_fields : Fields → List Value
    found_fields end = []
    found_fields (attribute a t fs) = found_fields fs
    found_fields (element k v fs) =
        let inner = found v in (if k == key then items (to_array v) else inner) ++ found_fields fs

module _ (key : String) (read : Value → Option (Option String)) where
  mutual
    unfolding scan found

    scan-found : (v : Value) → scan key read v ≡ each read (found key v)
    scan-found (scalar s) = refl
    scan-found (array vs) = scan_items-found vs
    scan-found (object fs) = scan_fields-found fs

    scan_items-found : (vs : Items) → scan_items key read vs ≡ each read (found_items key vs)
    scan_items-found nil = refl
    scan_items-found (item v vs) = ground (
      arith,
      scan-found v,
      scan_items-found vs,
      each-append read (found key v) (found_items key vs),
    )

    scan_fields-found : (fs : Fields) → scan_fields key read fs ≡ each read (found_fields key fs)
    scan_fields-found end = refl
    scan_fields-found (attribute a t fs) = scan_fields-found fs
    scan_fields-found (element k v fs) = elim (Bool-cases (k == key)) [
      | inl e ↦
          rw
            (
              e,
              each-append read (items (to_array v)) (found_fields key fs),
              scan_fields-found fs,
              each-items read (to_array v),
            )
            refl
      | inr e ↦
          rw
            (
              e,
              each-append read (found key v) (found_fields key fs),
              scan_fields-found fs,
              scan-found v,
            )
            refl
    ]

  -- The scans of several documents, each sorted and made a set.
  abbrev scan_each : Items → Option (List (List (Option String)))
  scan_each vs = map_items (λ v. scan key read v >>= λ xs. some (sorted_set xs)) vs

  scan_each-none : (vs : Items) → scan_each vs ≡ none → each read (found_items key vs) ≡ none
  unfolding found_items
  scan_each-none nil h = absurd (ground arith)
  scan_each-none (item v vs) h = elim (Option-cases (each read (found key v))) [
    | inl e ↦ rw (each-append read (found key v) (found_items key vs), e) refl
    | inr (xs, e) ↦
        rw (each-append read (found key v) (found_items key vs), e, scan_each-none vs (rest xs e))
          refl
  ]
    where
      rest : (xs : List (Option String)) → each read (found key v) ≡ some xs → scan_each vs ≡ none
      rest xs e = ground (arith, scan-found v)

  scan_each-some :
      (vs : Items) (ls : List (List (Option String)))
      → scan_each vs ≡ some ls
      → (xs : List (Option String)) × (each read (found_items key vs) ≡ some xs)
        × ((x : Option String) → (x ∈ concat ls) ↔ (x ∈ xs))
  unfolding found_items
  scan_each-some nil ls h = ([], refl, λ x. rw (sym (none_left h)) (λ k. k, λ k. k))
    where
      none_left : some [] ≡ some ls → [] ≡ ls
      none_left h = ground arith
  scan_each-some (item v vs) ls h = elim (Option-cases (scan_each vs)) [
    | inl e ↦ absurd (ground arith)
    | inr (ms, e) ↦ elim (Option-cases (each read (found key v))) [
      | inl k ↦ absurd (ground (arith, scan-found v))
      | inr (xs, k) ↦
          let (ys, p, q) = scan_each-some vs ms e in
          (
            xs ++ ys,
            rw (each-append read (found key v) (found_items key vs), k, p) refl,
            λ x. rw (joined xs ms k e) (both x xs (concat ms) ys (q x)),
          )
    ]
  ]
    where
      joined :
          (xs : List (Option String)) (ms : List (List (Option String)))
          → each read (found key v) ≡ some xs
          → scan_each vs ≡ some ms
          → ls ≡ sorted_set xs ∷ ms
      joined xs ms k e = ground (arith, scan-found v)

      both :
          (x : Option String) (xs us ys : List (Option String))
          → ((x ∈ us) ↔ (x ∈ ys))
          → (x ∈ (sorted_set xs ++ us)) ↔ (x ∈ (xs ++ ys))
      both x xs us ys q =
          ground
            (arith, ∈-append x (sorted_set xs) us, ∈-append x xs ys, ∈-to_set-sort text_order x xs)

  -- An element under the key, in any of the documents, is read as `x`.
  abbrev pub Occurs : Items → Option String → Type 0
  Occurs vs x = (t : Value) × (t ∈ found_items key vs) × (read t ≡ some x)

  pub collected :
      (vs : Items) (ls : List (List (Option String))) (x : Option String)
      → scan_each vs ≡ some ls
      → (x ∈ sorted_set (concat ls)) ↔ Occurs vs x
  collected vs ls x h =
      let (xs, p, q) = scan_each-some vs ls h in
      let (into, back) = ∈-to_set-sort text_order x (concat ls) in
      (
        λ k. each_any read x (found_items key vs) xs p ((q x).0 (into k)),
        λ (t, a, b). back ((q x).1 (reached xs p t a b)),
      )
    where
      reached :
          (xs : List (Option String))
          → each read (found_items key vs) ≡ some xs
          → (t : Value) → t ∈ found_items key vs
          → read t ≡ some x
          → x ∈ xs
      reached xs p t a b =
          let (y, c, d) = each_all read t (found_items key vs) xs p a in
          subst (λ z. z ∈ xs) (ground arith) d

  -- A scan throws only at an element that cannot be read, and always there.
  pub not_collected :
      (vs : Items)
      → (scan_each vs ≡ none) ↔ ((t : Value) × (t ∈ found_items key vs) × (read t ≡ none))
  not_collected vs = (
    λ h. each-none read (found_items key vs) (scan_each-none vs h),
    λ (t, a, b). elim (Option-cases (scan_each vs)) [
      | inl e ↦ e
      | inr (ls, e) ↦
          let (xs, p, q) = scan_each-some vs ls e in
          let (x, c, d) = each_all read t (found_items key vs) xs p a in absurd (ground arith)
    ],
  )
