-- ===== src/Bpmn/Gathering.antt =====
-- The lists that getTaskTypes and getMessageNames of src/lib/BpmnParser.ts give.
use zeebe_client_node_js.Base.{
  ◌≡◌, ◌↔◌, inl, inr, refl, Option, none, some, List, String, arith, Option-cases,
}
use zeebe_client_node_js.Bpmn.Order.{text_order}
use zeebe_client_node_js.Bpmn.Unique.{◌∈◌, IsAscending, to_set-sort-IsAscending, IsAscending-unique}
use zeebe_client_node_js.Bpmn.Document.{Value, to_array, map_items}
use zeebe_client_node_js.Bpmn.Scan.{
  task_type, message_name, concat, merge_dedupe_and_sort, scan_bpmn_object_for_tasks,
  scan_bpmn_object_for_messages, get_task_types, get_message_names,
}
use zeebe_client_node_js.Bpmn.Occurrences.{Occurs, found_items, collected, not_collected}

abbrev pub service_tasks : Value → List Value
service_tasks processes = found_items "bpmn:serviceTask" (to_array processes)

abbrev pub messages : Value → List Value
messages processes = found_items "bpmn:message" (to_array processes)

-- The type stands on a service task, at any depth of any of the documents.
abbrev pub TaskTypeOf : Value → Option String → Type 0
TaskTypeOf processes x = Occurs "bpmn:serviceTask" task_type (to_array processes) x

abbrev pub MessageNameOf : Value → Option String → Type 0
MessageNameOf processes x = Occurs "bpmn:message" message_name (to_array processes) x

-- Task types that getTaskTypes gives are in ascending order and each there once, and they are
-- exactly the types of the service tasks at any depth of any of the documents.
pub get_task_types-IsAscending :
    (processes : Value) (types : List (Option String))
    → get_task_types processes ≡ some types
    → IsAscending text_order types × ((x : Option String) → (x ∈ types) ↔ TaskTypeOf processes x)
unfolding get_task_types scan_bpmn_object_for_tasks merge_dedupe_and_sort
get_task_types-IsAscending processes types h =
    elim (Option-cases (map_items scan_bpmn_object_for_tasks (to_array processes))) [
      | inl e ↦ absurd (ground arith)
      | inr (ls, e) ↦ rw (merged ls e) (
        to_set-sort-IsAscending text_order (concat ls),
        λ x. collected "bpmn:serviceTask" task_type (to_array processes) ls x e,
      )
    ]
  where
    merged :
        (ls : List (List (Option String)))
        → map_items scan_bpmn_object_for_tasks (to_array processes) ≡ some ls
        → types ≡ merge_dedupe_and_sort ls
    merged ls e = ground arith

-- getTaskTypes throws exactly when some service task has no extension elements or no task
-- definition.
pub get_task_types_throws :
    (processes : Value)
    → (get_task_types processes ≡ none)
      ↔ ((t : Value) × (t ∈ service_tasks processes) × (task_type t ≡ none))
unfolding get_task_types scan_bpmn_object_for_tasks merge_dedupe_and_sort
get_task_types_throws processes =
    let (into, back) = not_collected "bpmn:serviceTask" task_type (to_array processes) in
    (λ h. into (ground arith), λ h. rw (back h) refl)

-- Documents with the same set of task types, in whatever order, number and depth, have the same
-- list of task types, where getTaskTypes gives a list for both.
pub get_task_types_agree :
    (left right : Value) (types others : List (Option String))
    → get_task_types left ≡ some types
    → get_task_types right ≡ some others
    → ((x : Option String) → TaskTypeOf left x ↔ TaskTypeOf right x)
    → types ≡ others
get_task_types_agree left right types others h k same =
    let (a, p) = get_task_types-IsAscending left types h in
    let (b, q) = get_task_types-IsAscending right others k in
    IsAscending-unique text_order types others a b
      (λ x. (λ z. (q x).1 ((same x).0 ((p x).0 z)), λ z. (p x).1 ((same x).1 ((q x).0 z))))

-- getMessageNames always gives a list: the names of the messages, in ascending order and each
-- once.
pub get_message_names-IsAscending :
    (processes : Value)
    → (names : List (Option String)) × (get_message_names processes ≡ some names)
      × IsAscending text_order names
      × ((x : Option String) → (x ∈ names) ↔ MessageNameOf processes x)
unfolding get_message_names scan_bpmn_object_for_messages merge_dedupe_and_sort message_name
get_message_names-IsAscending processes =
    elim (Option-cases (map_items scan_bpmn_object_for_messages (to_array processes))) [
      | inl e ↦
          let (t, a, b) = (not_collected "bpmn:message" message_name (to_array processes)).0 e in
          absurd (ground arith)
      | inr (ls, e) ↦ (
        merge_dedupe_and_sort ls,
        rw e refl,
        to_set-sort-IsAscending text_order (concat ls),
        λ x. collected "bpmn:message" message_name (to_array processes) ls x e,
      )
    ]
