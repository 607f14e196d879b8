-- ===== src/Tests/Runtime.antt =====
-- The theorems about coflowai/runtime/ at concrete inputs.
use coflowai.Base.{◌≡◌, refl, some, true, false, [], ◌∷◌, contains}
use coflowai.Base.Dict
use coflowai.Core.Types.{created, running, cancelled, in_statuses, terminal_statuses}
use coflowai.Core.Errors.{ErrorClass, plain, ok, err}
use coflowai.Core.Context.{ExecutionContext}
use coflowai.State.Checkpoint.{reason_text}
use coflowai.State.Store.{save_execution, get_execution, acquire_lock}
use coflowai.Runtime.Runtime.{Runtime}
use coflowai.Runtime.Drive.{Outcome, returned, drive}
use coflowai.Runtime.Drive.Settling.{concluded, not_cancelled}
use coflowai.Runtime.Drive.Locks.{outcome, drive_lem, drive-refused}
use coflowai.Runtime.Control.{cancel}
use coflowai.Runtime.Control.Cancelling.{cancel_lem}
use coflowai.Tests.Data.{context, stored, result, runtime}

-- Returns the result at once.
abbrev quick :
    Unit {0}
    → ExecutionContext
    → Runtime (Unit {0})
    → Outcome × ExecutionContext × Runtime (Unit {0})
quick e c rt = (returned result, c, rt)

drive_lem_example :
    (Dict.has (drive quick tt context stored "ckpt_1" runtime).1.active "exec_1" ≡ false)
    × (contains (drive quick tt context stored "ckpt_1" runtime).1.store.locks "exec_1" ≡ false)
    × (not_cancelled (outcome quick tt context stored "ckpt_1" runtime) ≡ true
        → get_execution (drive quick tt context stored "ckpt_1" runtime).1.store "exec_1"
          ≡ some (
              concluded
                (record stored { status = running })
                (outcome quick tt context stored "ckpt_1" runtime)))
unfolding acquire_lock
drive_lem_example = drive_lem quick tt context stored "ckpt_1" runtime refl refl

-- Another worker holds the lock.
abbrev held_runtime : Runtime (Unit {0})
held_runtime = record runtime { store = record runtime.store { locks = "exec_1" ∷ [] } }

drive-refused_example :
    ((drive quick tt context stored "ckpt_1" held_runtime).0
      ≡ err (plain ErrorClass.execution_error))
    × ((drive quick tt context stored "ckpt_1" held_runtime).1.store ≡ held_runtime.store)
    × ((drive quick tt context stored "ckpt_1" held_runtime).1.events ≡ [])
    × (Dict.get (drive quick tt context stored "ckpt_1" held_runtime).1.active "exec_1"
        ≡ some context)
unfolding acquire_lock
drive-refused_example = drive-refused quick tt context stored "ckpt_1" held_runtime refl

abbrev with_record : Runtime (Unit {0})
with_record = record runtime { store = save_execution runtime.store stored }

cancel_lem_example :
    (in_statuses created terminal_statuses ≡ true
      → cancel "exec_1" "stop" with_record ≡ (ok false, with_record))
    × (in_statuses created terminal_statuses ≡ false
        → ((cancel "exec_1" "stop" with_record).0 ≡ ok true)
          × (get_execution (cancel "exec_1" "stop" with_record).1.store "exec_1"
              ≡ some (record stored { status = cancelled; error = some (reason_text "stop") })))
unfolding get_execution save_execution Dict.get Dict.put
cancel_lem_example = cancel_lem "exec_1" "stop" with_record stored refl refl refl
