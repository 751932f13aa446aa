-- ===== src/Logging/Lines.antt =====
-- A message of src/lib/ZBLogger.ts that goes through src/lib/SimpleLogger.ts: the line that it gives.
use Prim.Native.String.{◌++◌}
use text.Mathlib.Text.{◌==◌}
use zeebe_client_node_js.Base.{
  ℕ, ◌≡◌, refl, Bool, true, false, Option, none, some, List, String, if◌then◌else◌, pos, ◌∙◌,
}
use zeebe_client_node_js.Signature.Values.{
  Value, undefined, number, string, object, Fields, end, field, is_truthy, get, lookup,
}
use zeebe_client_node_js.Logging.Logger.{Logger, Message, make_message, truthy_text, rest_of}
use zeebe_client_node_js.Logging.Simple.{Level, name_of, is_text, describe, message_of, readable}

abbrev text_or_undefined : Option String → Value
text_or_undefined none = undefined
text_or_undefined (some t) = string t

abbrev optional : {A : Type 0} → String → (A → Value) → Option A → Fields → Fields
optional k f none fs = fs
optional k f (some a) fs = field k (f a) fs

-- The object that `makeMessage` builds; the values of its clocks and the way an array is held are
-- parameters.
module _ (timestamp time : Value) (array_of : List (List Value) → Value) where
  abbrev pub object_of : Message Value → Value
  object_of m = object 0 (
      field "timestamp" timestamp (
        field "context" (string m.context) (
          field "id" (text_or_undefined m.id) (
            field "level" (number (pos m.level)) (
              field "message" m.message (
                field "time" time (
                  optional "pollInterval" (λ n. number (pos n)) m.poll_interval
                    (optional "namespace" string m.namespace (
                      optional "taskType" string m.task_type
                        (optional "data" array_of m.data' end))))))))))

-- The parts of a line.
abbrev pub channel_part : Option String → String
channel_part none = ""
channel_part (some id) = if id == "gRPC Channel" then " [gRPC Channel]:" else ""

abbrev pub task_part : Option String → String
task_part none = ""
task_part (some t) = " [" ++ t ++ "]"

-- What JSON keeps of a property whatever the others are.
abbrev pub is_plain : Value → Bool
is_plain undefined = true
is_plain (string s) = true
is_plain _ = false

lookup-optional :
    {A : Type 0} (k j : String) (f : A → Value) (o : Option A) (fs : Fields)
    → (j == k) ≡ false
    → lookup k (optional j f o fs) ≡ lookup k fs
lookup-optional k j f none fs h = refl
lookup-optional k j f (some a) fs h = rw h refl

lookup_task :
    (array_of : List (List Value) → Value) (n : Option ℕ) (ns t : Option String)
    (d : Option (List (List Value)))
    → lookup "taskType" (
        optional "pollInterval"
          (λ n. number (pos n))
          n
          (optional "namespace" string ns
            (optional "taskType" string t (optional "data" array_of d end))))
      ≡ text_or_undefined t
lookup_task array_of n ns t d =
    lookup-optional "taskType" "pollInterval" (λ n. number (pos n)) n _ refl
    ∙ lookup-optional "taskType" "namespace" string ns _ refl
    ∙ last t
  where
    last :
        (t : Option String)
        → lookup "taskType" (optional "taskType" string t (optional "data" array_of d end))
          ≡ text_or_undefined t
    last none = lookup-optional "taskType" "data" array_of d end refl
    last (some t) = refl

is_plain_text : (t : Option String) → is_plain (text_or_undefined t) ≡ true
is_plain_text none = refl
is_plain_text (some t) = refl

channel_line :
    (id : Option String)
    → (if is_text "gRPC Channel" (text_or_undefined id) then " [gRPC Channel]:" else "")
      ≡ channel_part id
channel_line none = refl
channel_line (some id) = refl

task_line :
    (shown : Value → String) (shown_text : (s : String) → shown (string s) ≡ s) (t : Option String)
    → (if is_truthy (text_or_undefined (truthy_text t))
        then " [" ++ shown (text_or_undefined (truthy_text t)) ++ "]"
        else "")
      ≡ task_part (truthy_text t)
task_line shown shown_text none = refl
task_line shown shown_text (some String.[]) = refl
task_line shown shown_text (some (String.◌∷◌ c t)) = rw (shown_text (String.◌∷◌ c t)) refl

module _ (parse : String → Option Value) (stringify shown : Value → String)
    (shown_text : (s : String) → shown (string s) ≡ s) (timestamp time : Value)
    (array_of : List (List Value) → Value) where
  described :
      (to : Level) (log_message : String) (v : Value)
      → parse log_message ≡ some v
      → readable v ≡ true
      → message_of parse stringify shown to log_message ≡ describe parse stringify shown to v
  unfolding message_of
  described to log_message v e r = rw (e, r) refl

  abbrev pub sent : Logger → String → ℕ → String → List Value → Value
  sent logger frame level message parameters =
      object_of timestamp time array_of
        (make_message logger frame level (string message) (rest_of parameters))

  -- Where JSON.parse reads the text of a message of ZBLogger, whose message is itself a text, as an
  -- object that agrees with it on the properties that are texts or missing, ZBSimpleLogger shows the mark
  -- of the gRPC channel if that is the logger's id, the task type of the logger if it has one, the level
  -- of the method and the message, whatever the other parts of the message are.
  pub message_of-make_message :
      (logger : Logger) (frame : String) (level : ℕ) (message : String) (parameters : List Value)
      (to : Level) (gs : Fields)
      → parse (stringify (sent logger frame level message parameters)) ≡ some (object 0 gs)
      → ((k : String)
          → is_plain (get k (sent logger frame level message parameters)) ≡ true
          → lookup k gs ≡ get k (sent logger frame level message parameters))
      → message_of parse stringify shown to (stringify (sent logger frame level message parameters))
        ≡ "| zeebe | "
          ++ channel_part logger.id
          ++ task_part (truthy_text logger.task_type)
          ++ " "
          ++ name_of to
          ++ ": "
          ++ message
  unfolding describe make_message
  message_of-make_message logger frame level message parameters to gs e same =
      let m = make_message logger frame level (string message) (rest_of parameters) in
      let task = lookup_task array_of m.poll_interval m.namespace m.task_type m.data' in
      described to _ (object 0 gs) e refl
      ∙ rw
          (
            describe,
            same "id" (is_plain_text logger.id),
            same "message" refl,
            same "taskType" (rw task (is_plain_text (truthy_text logger.task_type))),
            task,
            channel_line logger.id,
            task_line shown shown_text logger.task_type,
            shown_text message,
          )
          refl
