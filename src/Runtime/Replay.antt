-- ===== src/Runtime/Replay.antt =====
-- coflowai/runtime/replay.py: `ReplayTrace`. The step that is under way is the last one of the
-- trace. An event is taken with its payload here; the text of a value of a payload is an argument.
pub mod Partition
use coflowai.Base.{
  ℕ, suc, String, Option, none, some, Bool, true, List, [], ◌∷◌, ◌++◌, filter, contains, str_eq,
  if◌then◌else◌, Value,
}
use coflowai.Base.Dict
use coflowai.Base.Dict.{Dict}
use coflowai.Base.Json.{is_truthy}
use coflowai.Core.Context.{Event}

pub record Recorded : Type 0 where
  pub event : Event
  pub payload : Dict Value

-- `_STEP_STARTERS.get(type)`
unfoldable pub step_starter : String → Option String
step_starter type =
    if str_eq type "model.requested"
    then some "model"
    else if str_eq type "tool.requested"
    then some "tool"
    else if str_eq type "workflow.node.started"
    then some "node"
    else if str_eq type "agent.started"
    then some "agent"
    else if str_eq type "approval.requested"
    then some "approval"
    else none

pub record ReplayStep : Type 0 where
  pub index : ℕ
  pub kind : String
  pub name : String
  pub step : ℕ
  pub node_id : Option String
  pub events : List Recorded
  pub status : String
  pub duration_ms : Option Value

-- `type.endswith(suffix)`
unfoldable pub ends_with : String → String → Bool
ends_with String.[] suffix = str_eq "" suffix
ends_with (String.◌∷◌ c s) suffix =
    let rest = ends_with s suffix in if str_eq (String.◌∷◌ c s) suffix then true else rest

module _ (text_of : Value → String) where
  abbrev pub or_kind : Option String → String → String
  or_kind none kind = kind
  or_kind (some id) kind = if str_eq id "" then kind else id

  -- The loop of `_name_for` over the keys.
  unfoldable pub name_among : List String → Recorded → (kind : String) → String
  name_among [] e kind = or_kind e.event.node_id kind
  name_among (key ∷ keys) e kind =
      let rest = name_among keys e kind in
      elim (Dict.get e.payload key) [
        | none ↦ rest
        | some value ↦ if is_truthy value then text_of value else rest
      ]

  abbrev pub name_for : Recorded → (kind : String) → String
  unfolding name_among
  name_for = name_among ("model" ∷ "tool" ∷ "agent" ∷ "node" ∷ "approval_id" ∷ [])

  -- The step that an event begins.
  unfoldable pub begun : (index : ℕ) → (kind : String) → Recorded → ReplayStep
  unfolding name_for
  begun index kind e = record {
    index = index;
    kind = kind;
    name = name_for e kind;
    step = e.event.step;
    node_id = e.event.node_id;
    events = e ∷ [];
    status = "completed";
    duration_ms = none;
  }

  -- The step with one event more.
  unfoldable pub extended : ReplayStep → Recorded → ReplayStep
  unfolding ends_with
  extended s e =
      let s' = record s { events = s.events ++ e ∷ [] } in
      if ends_with e.event.type ".completed"
      then record s' { status = "completed"; duration_ms = Dict.get e.payload "duration_ms" }
      else if ends_with e.event.type ".failed"
      then record s' { status = "failed" }
      else if ends_with e.event.type ".denied"
      then record s' { status = "denied" }
      else s'

  abbrev pub to_list : Option ReplayStep → List ReplayStep
  to_list none = []
  to_list (some s) = s ∷ []

  abbrev pub continued : Option ReplayStep → Recorded → Option ReplayStep
  continued none e = none
  continued (some s) e = some (extended s e)

  -- The loop over the events: the step under way, and those after it.
  unfoldable pub steps_from :
      (index : ℕ) → (current : Option ReplayStep) → List Recorded → List ReplayStep
  unfolding begun extended step_starter
  steps_from index current [] = to_list current
  steps_from index current (e ∷ es) = elim (step_starter e.event.type) [
    | some kind ↦ to_list current ++ steps_from (suc index) (some (begun (suc index) kind e)) es
    | none ↦ steps_from index (continued current e) es
  ]

  -- `from_events`: the steps of the trace.
  unfoldable pub from_events : List Recorded → List ReplayStep
  unfolding steps_from
  from_events events = steps_from 0 none events

unfoldable pub events_of : List Recorded → String → List Recorded
events_of events type = filter (λ (e : Recorded). str_eq e.event.type type) events

unfoldable pub model_calls : List Recorded → List Recorded
unfolding events_of
model_calls events = events_of events "model.completed"

unfoldable pub tool_calls : List Recorded → List Recorded
unfolding events_of
tool_calls events = events_of events "tool.completed"

-- What stands behind the prefix, where the text begins with it.
unfoldable pub behind : (prefix text : String) → Option String
behind String.[] text = some text
behind (String.◌∷◌ c prefix) String.[] = none
behind (String.◌∷◌ c prefix) (String.◌∷◌ d text) =
    let rest = behind prefix text in
    if str_eq (String.◌∷◌ c String.[]) (String.◌∷◌ d String.[]) then rest else none

-- The text up to its first dot.
unfoldable pub until_dot : String → String
until_dot String.[] = ""
until_dot (String.◌∷◌ c s) =
    let rest = String.◌∷◌ c (until_dot s) in
    if str_eq (String.◌∷◌ c String.[]) "." then "" else rest

abbrev pub outcomes : List String
outcomes = "completed" ∷ "failed" ∷ "cancelled" ∷ "timeout" ∷ "paused" ∷ []

-- The status that an event sets.
unfoldable pub status_of : Recorded → Option String
unfolding behind until_dot
status_of e = elim (behind "execution." e.event.type) [
  | none ↦ none
  | some rest ↦ if contains outcomes (until_dot rest) then some rest else none
]

-- `status`: that of the last event that sets one.
unfoldable pub status_from : String → List Recorded → String
unfolding status_of
status_from found [] = found
status_from found (e ∷ es) = status_from (elim (status_of e) [ none ↦ found | some s ↦ s ]) es

unfoldable pub status : List Recorded → String
unfolding status_from
status events = status_from "unknown" events
