-- ===== src/Events/Jsonl.antt =====
-- coflowai/events/store.py: `JsonlEventStore` keeps one file for all executions, a list of its lines
-- here, and `to_dict` and `from_dict` of coflowai/events/event.py on the parts of an event that are
-- modelled. `json` is an argument. `none` stands for an exception; a value of another type than the
-- field of the event is one.
use coflowai.Base.{
  ℕ, ◌+◌, String, Option, none, some, Bool, List, [], ◌∷◌, ◌++◌, filter, length, str_eq,
  if◌then◌else◌, Value,
}
use coflowai.Base.Json.{Fields}
use coflowai.Core.Context.{Event}
use coflowai.Events.InMemory.{numbered}

abbrev optional_text : Option String → Value
optional_text none = Value.null
optional_text (some s) = Value.text s

unfoldable pub to_dict : Event → Value
to_dict e = Value.object (
    Fields.field "execution_id" (Value.text e.execution_id) (
      Fields.field "type" (Value.text e.type) (
        Fields.field "sequence" (Value.number e.sequence) (
          Fields.field "step" (Value.number e.step)
            (Fields.field "node_id" (optional_text e.node_id) Fields.end)))))

-- `fields.get(key)`
unfoldable pub field_at : Fields → String → Option Value
field_at Fields.end key = none
field_at (Fields.field k v rest) key =
    let other = field_at rest key in if str_eq k key then some v else other

abbrev pub text_at : Option Value → Option String
text_at (some (Value.text s)) = some s
text_at _ = none

abbrev pub number_at : Option Value → Option ℕ
number_at none = some 0
number_at (some (Value.number n)) = some n
number_at _ = none

abbrev pub optional_at : Option Value → Option (Option String)
optional_at none = some none
optional_at (some Value.null) = some none
optional_at (some (Value.text s)) = some (some s)
optional_at _ = none

abbrev pub event_of :
    Option String → Option String → Option ℕ → Option ℕ → Option (Option String) → Option Event
event_of (some id) (some type) (some sequence) (some step) (some node_id) =
    some (record {
      execution_id = id;
      type = type;
      step = step;
      node_id = node_id;
      sequence = sequence;
    })
event_of _ _ _ _ _ = none

unfoldable pub from_dict : Value → Option Event
unfolding field_at
from_dict (Value.object fields) =
    event_of (text_at (field_at fields "execution_id")) (text_at (field_at fields "type"))
      (number_at (field_at fields "sequence")) (number_at (field_at fields "step"))
      (optional_at (field_at fields "node_id"))
from_dict _ = none

-- `json.dumps` and `json.loads`, and whether a line is blank.
pub record Json (Line : Type 0) : Type 0 where
  pub dumps : Value → Line
  pub loads : Line → Option Value
  pub is_blank : Line → Bool

abbrev pub bind_event : Option Value → Option Event
bind_event none = none
bind_event (some fields) = from_dict fields

abbrev pub put_first : Option Event → Option (List Event) → Option (List Event)
put_first none rest = none
put_first (some e) none = none
put_first (some e) (some es) = some (e ∷ es)

module _ {Line : Type 0} (json : Json Line) where
  -- `_read`
  unfoldable pub read : (file : List Line) → Option (List Event)
  unfolding from_dict
  read [] = some []
  read (line ∷ lines) =
      let rest = read lines in
      if json.is_blank line then rest else put_first (bind_event (json.loads line)) rest

  abbrev pub of_execution : String → List Event → List Event
  of_execution id events = filter (λ (e : Event). str_eq e.execution_id id) events

  unfoldable pub get_events : List Line → String → Option (List Event)
  unfolding read
  get_events file id = elim (read file) [ none ↦ none | some es ↦ some (of_execution id es) ]

  unfoldable pub append : List Line → Event → Option (List Line)
  unfolding get_events to_dict
  append file e = elim (get_events file e.execution_id) [
    | none ↦ none
    | some es ↦ some (file ++ json.dumps (to_dict (numbered e (length es + 1))) ∷ [])
  ]
