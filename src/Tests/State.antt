-- ===== src/Tests/State.antt =====
-- The theorems about coflowai/state/ and coflowai/events/ at concrete inputs.
use coflowai.Base.{◌≡◌, refl, some, false, Value, List, [], ◌∷◌}
use coflowai.Core.Context.{Event, event}
use coflowai.State.Store.{Store, empty_store}
use coflowai.Events.InMemory
use coflowai.Events.Jsonl.{Json}
use coflowai.Events.Agreement.{append_all, append_lines, get_from, published, stores_agree}
use coflowai.Tests.Data.{context}

abbrev held : Store
held = record empty_store { locks = "exec_2" ∷ [] }

abbrev log : List Event
log =
    event context "execution.started"
    ∷ event (record context { execution_id = "exec_2" }) "execution.started"
    ∷ event context "execution.completed"
    ∷ []

-- A line that is the value itself.
abbrev plain_json : Json Value
plain_json = record { dumps = λ v. v; loads = λ v. some v; is_blank = λ v. false }

stores_agree_example :
    (InMemory.get_events (append_all InMemory.append [] log) "exec_1" ≡ published 1 "exec_1" log)
    × (get_from plain_json (append_lines plain_json [] log) "exec_1"
        ≡ some (published 1 "exec_1" log))
stores_agree_example = stores_agree plain_json (λ v. refl) (λ v. refl) log "exec_1"
