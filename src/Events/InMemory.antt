-- ===== src/Events/InMemory.antt =====
-- coflowai/events/store.py: `InMemoryEventStore` keeps a bucket of events for each execution.
use coflowai.Base.{ℕ, ◌+◌, String, Option, none, some, List, [], ◌∷◌, ◌++◌, length}
use coflowai.Base.Dict
use coflowai.Base.Dict.{Dict}
use coflowai.Core.Context.{Event}

-- `event.sequence = n`
abbrev pub numbered : Event → ℕ → Event
numbered e n = record e { sequence = n }

abbrev pub bucket : Option (List Event) → List Event
bucket none = []
bucket (some l) = l

unfoldable pub get_events : Dict (List Event) → String → List Event
get_events store id = bucket (Dict.get store id)

unfoldable pub append : Dict (List Event) → Event → Dict (List Event)
unfolding get_events
append store e =
    let old = get_events store e.execution_id in
    Dict.put store e.execution_id (old ++ numbered e (length old + 1) ∷ [])
