-- ===== src/Bpmn/Writable.antt =====
-- When src/lib/BpmnParser.ts can write a starter file: the service tasks that the scans for headers and
-- the workers do not stop at.
use text.Mathlib.Text.{◌==◌}
use zeebe_client_node_js.Base.{
  ◌≡◌, ◌≢◌, inl, inr, refl, false, Option, none, some, List, [], ◌∷◌, ◌++◌, String, arith, All,
  Option-cases, Bool-cases, subst, sym, ap, ◌∙◌,
}
use zeebe_client_node_js.Bpmn.Unique.{◌∈◌}
use zeebe_client_node_js.Bpmn.Document.{
  Value, scalar, array, object, Items, nil, item, Fields, end, attribute, element, get, to_array,
}
use zeebe_client_node_js.Bpmn.Scan.{task_type}
use zeebe_client_node_js.Bpmn.Readings.{items}
use zeebe_client_node_js.Bpmn.Occurrences.{found, found_items, found_fields}
use zeebe_client_node_js.Bpmn.Names.{get_safe_name}
use zeebe_client_node_js.Bpmn.Files.{Xml}
use zeebe_client_node_js.Bpmn.Scaffold.{
  Interfaces, mem, inherited, interfaces_of, header_names, add_interface, add_task, add_tasks,
  headers, headers_items, headers_fields,
}
use zeebe_client_node_js.Bpmn.Generate.{worker, workers}

module _ {A : Type 0} (P : A → Type 0) where
  pub All-∈ : (xs : List A) (x : A) → All P xs → x ∈ xs → P x
  All-∈ [] x h k = elim k [ ]
  All-∈ (y ∷ xs) x (p, h) (inl e) = subst P (sym e) p
  All-∈ (y ∷ xs) x (p, h) (inr k) = All-∈ xs x h k

  pub All-left : (xs ys : List A) → All P (xs ++ ys) → All P xs
  All-left [] ys h = tt
  All-left (x ∷ xs) ys (p, h) = (p, All-left xs ys h)

  pub All-right : (xs ys : List A) → All P (xs ++ ys) → All P ys
  All-right [] ys h = h
  All-right (x ∷ xs) ys (p, h) = All-right xs ys h

module _ (upper : String → String) where
  -- A task with extension elements, whose headers can be read, and with a type that has a safe name and
  -- is no name that every object inherits.
  pub record IsWritable (t : Value) : Type 0 where
    pub extension : Value
    pub header : Option (List (Option String))
    pub type : String
    pub safe : String
    pub has_extension : get "bpmn:extensionElements" t ≡ some extension
    pub has_header : header_names extension ≡ some header
    pub has_type : task_type t ≡ some (some type)
    pub has_safe : get_safe_name upper type ≡ some safe
    pub own_name : mem type inherited ≡ false

  add_interface_some :
      (t safe : String) (names : List (Option String)) (m : Interfaces)
      → mem t inherited ≡ false
      → add_interface t safe names m ≢ none
  unfolding add_interface
  add_interface_some t safe names m h e = elim (Option-cases (interfaces_of t m)) [
    | inl k ↦ absurd (ground arith)
    | inr (ds, k) ↦ absurd (ground arith)
  ]

  add_task_some : (t : Value) (m : Interfaces) → IsWritable t → add_task upper t m ≢ none
  unfolding add_task
  add_task_some t m w e = elim (Option-cases w.header) [
    | inl k ↦ absurd (ground (arith, k, w.has_extension, w.has_header, w.has_type, w.has_safe))
    | inr (names, k) ↦ absurd (
        ground (
          arith,
          k,
          w.has_extension,
          w.has_header,
          w.has_type,
          w.has_safe,
          add_interface_some w.type w.safe names m w.own_name,
        ))
  ]

  add_tasks_some :
      (ts : Items) (m : Interfaces) → All IsWritable (items ts) → add_tasks upper ts m ≢ none
  add_tasks_some nil m h e = ground arith
  add_tasks_some (item t ts) m (w, h) e = elim (Option-cases (add_task upper t m)) [
    | inl k ↦ add_task_some t m w k
    | inr (n, k) ↦ add_tasks_some ts n h (ground arith)
  ]

  mutual
    unfolding headers found

    pub headers_some :
        (v : Value) (m : Interfaces)
        → All IsWritable (found "bpmn:serviceTask" v)
        → headers upper v m ≢ none
    headers_some (scalar b) m h e = ground arith
    headers_some (array vs) m h e = headers_items_some vs m h e
    headers_some (object fs) m h e = headers_fields_some fs m h e

    headers_items_some :
        (vs : Items) (m : Interfaces)
        → All IsWritable (found_items "bpmn:serviceTask" vs)
        → headers_items upper vs m ≢ none
    headers_items_some nil m h e = ground arith
    headers_items_some (item v vs) m h e = elim (Option-cases (headers upper v m)) [
      | inl k ↦
          headers_some v m
            (All-left IsWritable (found "bpmn:serviceTask" v) (found_items "bpmn:serviceTask" vs) h)
            k
      | inr (n, k) ↦
          headers_items_some vs n
            (All-right IsWritable (found "bpmn:serviceTask" v) (found_items "bpmn:serviceTask" vs)
              h)
            (ground arith)
    ]

    headers_fields_some :
        (fs : Fields) (m : Interfaces)
        → All IsWritable (found_fields "bpmn:serviceTask" fs)
        → headers_fields upper fs m ≢ none
    headers_fields_some end m h e = ground arith
    headers_fields_some (attribute a t fs) m h e = headers_fields_some fs m h e
    headers_fields_some (element k v fs) m h e = elim (Bool-cases (k == "bpmn:serviceTask")) [
      | inl b ↦
          let h' : All IsWritable (items (to_array v) ++ found_fields "bpmn:serviceTask" fs) =
            rw b at h in
          elim (Option-cases (add_tasks upper (to_array v) m)) [
            | inl c ↦
                add_tasks_some (to_array v) m (All-left IsWritable (items (to_array v)) _ h') c
            | inr (n, c) ↦
                headers_fields_some fs n (All-right IsWritable (items (to_array v)) _ h')
                  (ground arith)
          ]
      | inr b ↦
          let h' : All IsWritable
              (found "bpmn:serviceTask" v ++ found_fields "bpmn:serviceTask" fs) =
            rw b at h in
          elim (Option-cases (headers upper v m)) [
            | inl c ↦ headers_some v m (All-left IsWritable (found "bpmn:serviceTask" v) _ h') c
            | inr (n, c) ↦
                headers_fields_some fs n (All-right IsWritable (found "bpmn:serviceTask" v) _ h')
                  (ground arith)
          ]
    ]

module _ (xml : Xml) (upper basename : String → String) where
  worker_of_type :
      (m : Interfaces) (types : List (Option String)) (s safe : String)
      → get_safe_name upper s ≡ some safe
      → mem s inherited ≡ false
      → worker xml upper basename m types (some s) ≢ none
  unfolding worker
  worker_of_type m types s safe h k e = elim (Option-cases (interfaces_of s m)) [
    | inl i ↦ absurd (ground arith)
    | inr (ds, i) ↦ absurd (ground arith)
  ]

  pub worker_some :
      (m : Interfaces) (types : List (Option String)) (t : Value) (x : Option String)
      → IsWritable upper t
      → task_type t ≡ some x
      → worker xml upper basename m types x ≢ none
  worker_some m types t x w h e =
      let named : x ≡ some w.type = ground (arith, w.has_type) in
      worker_of_type m types w.type w.safe w.has_safe w.own_name
        (sym (ap (λ z. worker xml upper basename m types z) named) ∙ e)

  pub workers_some :
      (m : Interfaces) (types ts : List (Option String))
      → ((x : Option String) → x ∈ ts → worker xml upper basename m types x ≢ none)
      → workers xml upper basename m types ts ≢ none
  workers_some m types [] h e = ground arith
  workers_some m types (x ∷ ts) h e = elim (Option-cases (worker xml upper basename m types x)) [
    | inl k ↦ h x (inl refl) k
    | inr (w, k) ↦ workers_some m types ts (λ y l. h y (inr l)) (ground arith)
  ]
