-- ===== src/Bpmn/Starter.antt =====
-- What the starter worker file of src/lib/BpmnParser.ts holds: a worker and an enum member for every
-- service task of the document.
use Prim.Native.String.{◌++◌}
use zeebe_client_node_js.Base.{
  Option, none, some, List, [], ◌∷◌, String, ◌≡◌, ◌≢◌, refl, arith, Option-cases, inl, inr, sym,
  ◌∙◌, ap, subst,
}
use zeebe_client_node_js.Bpmn.Unique.{◌∈◌}
use zeebe_client_node_js.Bpmn.Document.{Value, array, nil, item}
use zeebe_client_node_js.Bpmn.Scan.{task_type, get_task_types, get_message_names}
use zeebe_client_node_js.Bpmn.Gathering.{
  service_tasks, get_task_types-IsAscending, get_task_types_throws,
}
use zeebe_client_node_js.Bpmn.Names.{join, get_safe_name}
use zeebe_client_node_js.Bpmn.Files.{one, Xml, parse_bpmn, parse_file, parse_files}
use zeebe_client_node_js.Bpmn.Scaffold.{shown, Interfaces, headers}
use zeebe_client_node_js.Bpmn.Generate.{
  enum_list, generate_constants_for_bpmn_files, worker, workers, custom_headers, scaffold,
  enum_dictionary, constants_text, worker_text, starter_text, enum_member,
}
use zeebe_client_node_js.Bpmn.Contains.{Contains, Contains-left, Contains-split, Contains-join}
use zeebe_client_node_js.Bpmn.Pieces.{
  present-map, worker_head, head_Contains, get_safe_name_empty, service_tasks_one, starter_worker,
  starter_constants,
}

-- The enum of task types, with the text between its braces, up to the head of the enum that follows.
abbrev task_type_enum : String → String
task_type_enum members =
    "\n\nexport enum TaskType {\n" ++ (members ++ "\n}\n\nexport enum MessageName {\n")

-- The file holds the part among the members of its enum of task types.
abbrev pub InTaskTypes : String → String → Type 0
InTaskTypes output part =
    (members : String) × Contains output (task_type_enum members) × Contains members part

module _ (xml : Xml) (upper basename : String → String) where
  constants_Contains :
      (types names : String) (t : List String)
      → Contains (constants_text t types names) (task_type_enum types)
  constants_Contains types names t =
      Contains-left "\n// Autogenerated constants for " _ (task_type_enum types) (
        Contains-left (join "," t) _ (task_type_enum types) (
          Contains-split "\n\nexport enum TaskType {\n" types "\n}\n\nexport enum MessageName {\n"
            _))

  workers_∈ :
      (m : Interfaces) (types ts : List (Option String)) (ws : List String) (t : Option String)
      → workers xml upper basename m types ts ≡ some ws
      → t ∈ ts
      → (w : String) × (worker xml upper basename m types t ≡ some w) × (w ∈ ws)
  workers_∈ m types [] ws t h k = elim k [ ]
  workers_∈ m types (a ∷ ts) ws t h k = elim (Option-cases (worker xml upper basename m types a)) [
    | inl e ↦ absurd (ground arith)
    | inr (w, e) ↦ elim (Option-cases (workers xml upper basename m types ts)) [
      | inl f ↦ absurd (ground arith)
      | inr (vs, f) ↦ elim k [
        | inl p ↦ (w, rw p e, subst (λ z. w ∈ z) (split_ws w vs e f) (inl refl))
        | inr p ↦
            let (v, q, r) = workers_∈ m types ts vs t f p in
            (v, q, subst (λ z. v ∈ z) (split_ws w vs e f) (inr r))
      ]
    ]
  ]
    where
      split_ws :
          (w : String) (vs : List String)
          → worker xml upper basename m types a ≡ some w
          → workers xml upper basename m types ts ≡ some vs
          → w ∷ vs ≡ ws
      split_ws w vs e f = ground arith

  worker_Contains :
      (m : Interfaces) (types : List (Option String)) (t : Option String) (w : String)
      → worker xml upper basename m types t ≡ some w
      → (s : String) × (safe : String) × (t ≡ some s)
        × (get_safe_name upper s ≡ some safe)
        × Contains w (worker_head safe)
  unfolding worker
  worker_Contains m types none w h = absurd (ground arith)
  worker_Contains m types (some s) w h = elim (Option-cases (get_safe_name upper s)) [
    | inl e ↦ absurd (ground arith)
    | inr (safe, e) ↦ elim (Option-cases (custom_headers xml upper basename m s safe)) [
      | inl f ↦ absurd (ground arith)
      | inr (custom, f) ↦ (
        s,
        safe,
        refl,
        e,
        subst (λ z. Contains z (worker_head safe)) (written safe custom e f)
            (head_Contains s custom safe _),
      )
    ]
  ]
    where
      written :
          (safe custom : String)
          → get_safe_name upper s ≡ some safe
          → custom_headers xml upper basename m s safe ≡ some custom
          → worker_text s custom safe (shown (enum_dictionary xml upper basename types (some s)))
            ≡ w
      written safe custom e f = ground arith

  enum_list-Contains :
      (s : String) (a : List (Option String))
      → some s ∈ a
      → s ≢ ""
      → Contains (enum_list xml upper basename a) (enum_member xml upper basename s)
  unfolding enum_list
  enum_list-Contains s a h k =
      Contains-join ",\n" _ _ (present-map (enum_member xml upper basename) s a h k)

  pub parse_bpmn_one :
      (filename : String) (v : Value)
      → parse_file xml filename ≡ some v
      → parse_bpmn xml (one filename) ≡ some (array (item v nil))
  unfolding parse_bpmn parse_files
  parse_bpmn_one filename v p = rw p refl

  -- The texts that the starter file is made of.
  scaffold_parts :
      (filename output : String) (v : Value)
      → parse_file xml filename ≡ some v
      → scaffold xml upper basename filename ≡ some output
      → (types all names : List (Option String)) × (hs : Interfaces) × (ws : List String)
        × (get_task_types v ≡ some types)
        × (get_task_types (array (item v nil)) ≡ some all)
        × (workers xml upper basename hs types types ≡ some ws)
        × (output
            ≡ starter_text
                (constants_text
                  (basename filename ∷ [])
                  (enum_list xml upper basename all)
                  (enum_list xml upper basename names))
                ws)
  unfolding scaffold generate_constants_for_bpmn_files
  scaffold_parts filename output v p h =
      let q = parse_bpmn_one filename v p in
      elim (Option-cases (get_task_types v)) [
        | inl e ↦ absurd (ground arith)
        | inr (types, e) ↦ elim (Option-cases (get_task_types (array (item v nil)))) [
          | inl k ↦ absurd (ground arith)
          | inr (all, k) ↦ elim (Option-cases (get_message_names (array (item v nil)))) [
            | inl n ↦ absurd (ground arith)
            | inr (names, n) ↦ elim (Option-cases (headers upper v [])) [
              | inl d ↦ absurd (ground arith)
              | inr (hs, d) ↦ elim (Option-cases (workers xml upper basename hs types types)) [
                | inl w ↦ absurd (ground arith)
                | inr (ws, w) ↦ (types, all, names, hs, ws, e, k, w, ground arith)
              ]
            ]
          ]
        ]
      ]

  -- What the file holds of one service task.
  pub scaffold_covers_task :
      (filename output : String) (v t : Value)
      → parse_file xml filename ≡ some v
      → scaffold xml upper basename filename ≡ some output
      → t ∈ service_tasks v
      → (s : String) × (safe : String) × (task_type t ≡ some (some s))
        × (get_safe_name upper s ≡ some safe)
        × Contains output (worker_head safe)
        × InTaskTypes output (enum_member xml upper basename s)
  scaffold_covers_task filename output v t p h k =
      let (types, all, names, hs, ws, e, f, g, o) = scaffold_parts filename output v p h in
      elim (Option-cases (task_type t)) [
        | inl z ↦ absurd (thrown types e z)
        | inr (x, z) ↦
            let (w, q, r) =
              workers_∈ hs types types ws x g
                (((get_task_types-IsAscending v types e).1 x).1 (t, k, z)) in
            let (s, safe, a, b, c) = worker_Contains hs types x w q in
            (
              s,
              safe,
              z ∙ ap some a,
              b,
              rw o (starter_worker _ ws (worker_head safe) w r c),
              (
                enum_list xml upper basename all,
                rw o (
                    starter_constants _ ws (task_type_enum (enum_list xml upper basename all))
                      (constants_Contains _ _ _)),
                enum_list-Contains s all (named all s f (z ∙ ap some a)) (not_empty s safe b),
              ),
            )
      ]
    where
      thrown :
          (types : List (Option String)) → get_task_types v ≡ some types → task_type t ≡ none → ⊥
      thrown types e z = let n = (get_task_types_throws v).1 (t, k, z) in ground arith

      named :
          (all : List (Option String)) (s : String)
          → get_task_types (array (item v nil)) ≡ some all
          → task_type t ≡ some (some s)
          → some s ∈ all
      named all s f z =
          ((get_task_types-IsAscending (array (item v nil)) all f).1 (some s)).1
            (t, service_tasks_one t v k, z)

      not_empty : (s safe : String) → get_safe_name upper s ≡ some safe → s ≢ ""
      not_empty s safe b e =
          let n = sym (ap (λ z. get_safe_name upper z) e) ∙ b in
          absurd (ground (arith, get_safe_name_empty upper))
