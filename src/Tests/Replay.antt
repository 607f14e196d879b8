-- ===== src/Tests/Replay.antt =====
-- The theorem about coflowai/runtime/replay.py at a concrete input.
use coflowai.Base.{String, none, List, [], ◌∷◌, Value}
use coflowai.Runtime.Replay.{Recorded, from_events}
use coflowai.Runtime.Replay.Partition.{IsPartition, from_events-IsPartition}

abbrev text_of : Value → String
text_of v = "model"

abbrev recorded : String → Recorded
recorded type = record {
  event = record { execution_id = "exec_1"; type = type; step = 1; node_id = none; sequence = 1 };
  payload = ("model", Value.text "gpt") ∷ [];
}

abbrev log : List Recorded
log =
    recorded "execution.started"
    ∷ recorded "agent.started"
    ∷ recorded "model.requested"
    ∷ recorded "model.failed"
    ∷ recorded "execution.failed"
    ∷ []

from_events-IsPartition_example : IsPartition log (from_events text_of log)
from_events-IsPartition_example = from_events-IsPartition text_of log
