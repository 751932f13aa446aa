-- ===== src/Bpmn/Complete.antt =====
-- That src/lib/BpmnParser.ts writes a starter file, and all that it holds.
use zeebe_client_node_js.Base.{
  All, Option, none, some, List, [], ◌∷◌, String, ◌≡◌, ◌≢◌, refl, arith, Option-cases, inl, inr,
}
use zeebe_client_node_js.Bpmn.Unique.{◌∈◌}
use zeebe_client_node_js.Bpmn.Occurrences.{found}
use zeebe_client_node_js.Bpmn.Document.{Value, scalar, array, object, nil, item}
use zeebe_client_node_js.Bpmn.Scan.{task_type, get_task_types}
use zeebe_client_node_js.Bpmn.Gathering.{
  get_message_names-IsAscending, service_tasks, get_task_types-IsAscending, get_task_types_throws,
}
use zeebe_client_node_js.Bpmn.Names.{get_safe_name}
use zeebe_client_node_js.Bpmn.Files.{Xml, parse_file}
use zeebe_client_node_js.Bpmn.Scaffold.{Interfaces, headers}
use zeebe_client_node_js.Bpmn.Generate.{
  generate_constants_for_bpmn_files, workers, scaffold, enum_member,
}
use zeebe_client_node_js.Bpmn.Writable.{
  IsWritable, All-∈, All-left, headers_some, worker_some, workers_some,
}
use zeebe_client_node_js.Bpmn.Contains.{Contains}
use zeebe_client_node_js.Bpmn.Pieces.{service_tasks_only, worker_head}
use zeebe_client_node_js.Bpmn.Starter.{InTaskTypes, parse_bpmn_one, scaffold_covers_task}

module _ (xml : Xml) (upper basename : String → String) where
  scans_headers : (v : Value) → All (IsWritable upper) (service_tasks v) → headers upper v [] ≢ none
  unfolding headers found
  scans_headers (scalar b) h = λ e. ground arith
  scans_headers (array vs) h = headers_some upper (array vs) [] h
  scans_headers (object fs) h =
      headers_some upper (object fs) []
        (All-left (IsWritable upper) (found "bpmn:serviceTask" (object fs)) [] h)

  types_some : (v : Value) → All (IsWritable upper) (service_tasks v) → get_task_types v ≢ none
  types_some v h e =
      let (t, a, b) = (get_task_types_throws v).0 e in
      let w = All-∈ (IsWritable upper) (service_tasks v) t h a in ground (arith, w.has_type)

  types_one_some :
      (v : Value)
      → All (IsWritable upper) (service_tasks v)
      → get_task_types (array (item v nil)) ≢ none
  types_one_some v h e =
      let (t, a, b) = (get_task_types_throws (array (item v nil))).0 e in
      let w = All-∈ (IsWritable upper) (service_tasks v) t h (service_tasks_only t v a) in
      ground (arith, w.has_type)

  workers_written :
      (v : Value) (m : Interfaces) (types : List (Option String))
      → All (IsWritable upper) (service_tasks v)
      → get_task_types v ≡ some types
      → workers xml upper basename m types types ≢ none
  workers_written v m types h e = workers_some xml upper basename m types types (λ x k.
      let (t, a, b) = ((get_task_types-IsAscending v types e).1 x).0 k in
      worker_some xml upper basename m types t x (All-∈ (IsWritable upper) (service_tasks v) t h a)
        b)

  scaffold-some :
      (filename : String) (v : Value)
      → parse_file xml filename ≡ some v
      → All (IsWritable upper) (service_tasks v)
      → scaffold xml upper basename filename ≢ none
  unfolding scaffold generate_constants_for_bpmn_files
  scaffold-some filename v p h e =
      let q = parse_bpmn_one xml upper basename filename v p in
      let (names, n, _, _) = get_message_names-IsAscending (array (item v nil)) in
      elim (Option-cases (get_task_types v)) [
        | inl k ↦ types_some v h k
        | inr (types, k) ↦ elim (Option-cases (get_task_types (array (item v nil)))) [
          | inl f ↦ types_one_some v h f
          | inr (all, f) ↦ elim (Option-cases (headers upper v [])) [
            | inl d ↦ scans_headers v h d
            | inr (hs, d) ↦ elim (Option-cases (workers xml upper basename hs types types)) [
              | inl w ↦ workers_written v hs types h k w
              | inr (ws, w) ↦ absurd (ground arith)
            ]
          ]
        ]
      ]

  -- The file holds the worker and the enum member of a service task.
  abbrev pub Covers : String → Value → Type 0
  Covers output t =
      (s : String) × (safe : String) × (task_type t ≡ some (some s))
      × (get_safe_name upper s ≡ some safe)
      × Contains output (worker_head safe)
      × InTaskTypes output (enum_member xml upper basename s)

  Covers-All :
      (output : String) (ts : List Value)
      → ((t : Value) → t ∈ ts → Covers output t)
      → All (Covers output) ts
  Covers-All output [] h = tt
  Covers-All output (t ∷ ts) h = (h t (inl refl), Covers-All output ts (λ u k. h u (inr k)))

  -- From a document whose service tasks all have extension elements, headers that can be read if they
  -- have any, and a type that has a safe name and is no name that every object inherits, scaffold makes a
  -- file, and for each service task the file declares the worker of its safe name, and has the member of
  -- its type in the enum of task types, before the enum of message names.
  pub scaffold-Covers :
      (filename : String) (v : Value)
      → parse_file xml filename ≡ some v
      → All (IsWritable upper) (service_tasks v)
      → (output : String) × (scaffold xml upper basename filename ≡ some output)
        × All (Covers output) (service_tasks v)
  scaffold-Covers filename v p h = elim (Option-cases (scaffold xml upper basename filename)) [
    | inl e ↦ absurd (scaffold-some filename v p h e)
    | inr (output, e) ↦ (
      output,
      e,
      Covers-All output (service_tasks v)
          (λ t k. scaffold_covers_task xml upper basename filename output v t p e k),
    )
  ]
