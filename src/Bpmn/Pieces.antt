-- ===== src/Bpmn/Pieces.antt =====
-- What the texts of a starter worker file contain (src/lib/BpmnParser.ts), and the lemmas on task
-- types that this needs.
use Prim.Native.String.{◌++◌}
use text.Mathlib.Text.{◌==◌}
use text.Mathlib.TextEquality.{eq_iff}
use zeebe_client_node_js.Base.{
  Option, none, some, List, [], ◌∷◌, map, String, ◌≡◌, ◌≢◌, refl, arith, inl, inr, ◌∙◌, ap,
  Bool-cases,
}
use zeebe_client_node_js.Bpmn.Unique.{◌∈◌, ∈-append}
use zeebe_client_node_js.Bpmn.Occurrences.{found, found_items}
use zeebe_client_node_js.Bpmn.Document.{Value, scalar, array, object, nil, item}
use zeebe_client_node_js.Bpmn.Gathering.{service_tasks}
use zeebe_client_node_js.Bpmn.Names.{split, join, get_safe_name}
use zeebe_client_node_js.Bpmn.Scaffold.{present}
use zeebe_client_node_js.Bpmn.Generate.{worker_text, starter_text}
use zeebe_client_node_js.Bpmn.Contains.{
  Contains, Contains-here, Contains-left, Contains-right, Contains-join, Contains-trans,
}

pub present-map :
    (f : String → String) (s : String) (a : List (Option String))
    → some s ∈ a
    → s ≢ ""
    → f s ∈ map f (present a)
present-map f s [] h k = elim h [ ]
present-map f s (none ∷ a) h k = elim h [
  | inl e ↦ absurd (ground arith)
  | inr e ↦ present-map f s a e k
]
present-map f s (some t ∷ a) h k = elim (Bool-cases (t == "")) [
  | inl z ↦ rw z (elim h [
    | inl e ↦ absurd (k (some-inj e ∙ (eq_iff t "").0 z))
    | inr e ↦ present-map f s a e k
  ])
  | inr z ↦ rw z (elim h [ inl e ↦ inl (ap f (some-inj e)) | inr e ↦ inr (present-map f s a e k) ])
]
  where
    some-inj : some s ≡ some t → s ≡ t
    some-inj e = ground arith

abbrev pub worker_head : String → String
worker_head safe = "export const " ++ (safe ++ "Worker = zbc.createWorker<")

pub head_Contains :
    (t custom safe constant : String)
    → Contains (worker_text t custom safe constant) (worker_head safe)
head_Contains t custom safe constant =
    Contains-left "// Worker for tasks of type \"" _ (worker_head safe) (
      Contains-left t _ (worker_head safe) (
        Contains-left "\"\n" _ (worker_head safe) (
          Contains-left custom _ (worker_head safe)
            (Contains-left "\n\n" _ (worker_head safe) (Contains-here (worker_head safe) _)))))

pub get_safe_name_empty : (upper : String → String) → get_safe_name upper "" ≡ none
unfolding get_safe_name split
get_safe_name_empty upper = refl

pub service_tasks_one : (t v : Value) → t ∈ service_tasks v → t ∈ service_tasks (array (item v nil))
unfolding found found_items
service_tasks_one t (scalar b) h = elim h [ ]
service_tasks_one t (array vs) h = (∈-append t (found_items "bpmn:serviceTask" vs) []).1 (inl h)
service_tasks_one t (object fs) h = h

pub service_tasks_only :
    (t v : Value) → t ∈ service_tasks (array (item v nil)) → t ∈ service_tasks v
unfolding found found_items
service_tasks_only t (scalar b) h = elim h [ ]
service_tasks_only t (array vs) h = elim ((∈-append t (found_items "bpmn:serviceTask" vs) []).0 h) [
  | inl k ↦ k
  | inr k ↦ elim k [ ]
]
service_tasks_only t (object fs) h = h

pub starter_worker :
    (interfaces : String) (ws : List String) (part w : String)
    → w ∈ ws
    → Contains w part
    → Contains (starter_text interfaces ws) part
starter_worker interfaces ws part w h k = Contains-left _ _ part (
    Contains-left _ _ part (
      Contains-left _ _ part (
        Contains-left interfaces _ part (
          Contains-left "\n" _ part
            (Contains-trans (join "\n" ws) w part (Contains-join "\n" w ws h) k)))))

pub starter_constants :
    (interfaces : String) (ws : List String) (part : String)
    → Contains interfaces part
    → Contains (starter_text interfaces ws) part
starter_constants interfaces ws part h = Contains-left _ _ part (
    Contains-left _ _ part
      (Contains-left _ _ part (Contains-right interfaces ("\n" ++ join "\n" ws) part h)))
