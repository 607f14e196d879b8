-- ===== src/Tests/Runs.antt =====
-- The theorems about `run`, `resume` and `approve` of coflowai/runtime/runtime.py at concrete
-- inputs.
use coflowai.Base.{◌≡◌, refl, String, Option, none, some, true, [], ◌∷◌, Value}
use coflowai.Core.Types.{waiting_for_approval}
use coflowai.Core.Errors.{PythonClass, python, ok, err}
use coflowai.Core.Context.{ExecutionContext}
use coflowai.Policies.Policy.{ExecutionPolicy, PolicyDict, raw, to_dict, of_dict}
use coflowai.State.Checkpoint.{ApprovalRecord, ExecutionRecord, Checkpoint, no_state}
use coflowai.State.Store.{
  save_execution, save_checkpoint, get_execution, list_checkpoints, latest_checkpoint, acquire_lock,
}
use coflowai.Base.Dict
use coflowai.Runtime.Runtime.{Runtime, create_checkpoint}
use coflowai.Runtime.Drive.{Outcome, returned}
use coflowai.Runtime.Drive.Locks.{outcome}
use coflowai.Runtime.Control.{decide}
use coflowai.Runtime.Control.Decisions.{Decided, decide_lem}
use coflowai.Runtime.Runs.{run, resume, known_target, restored}
use coflowai.Runtime.Runs.Ends.{
  Ended, run_context, run_record, created_runtime, run_lem, run-reloaded, resumed_context,
  resumed_runtime, resume_lem,
}
use coflowai.Runtime.Runs.Restoring.{Continues, restored-create_checkpoint}
use coflowai.Tests.Data.{policy, context, checkpoint, stored, result, runtime}

-- One executable, that returns at once.
abbrev name : Unit {0} → String
name e = "agent"

abbrev hash : Unit {0} → Option String
hash e = none

abbrev quick :
    Unit {0}
    → ExecutionContext
    → Runtime (Unit {0})
    → Outcome × ExecutionContext × Runtime (Unit {0})
quick e c rt = (returned result, c, rt)

abbrev written : PolicyDict
written = record {
  max_steps = 20;
  timeout_seconds = some 300;
  max_model_calls = 2;
  max_tool_calls = 4;
  max_tokens = some 1000;
  max_cost = none;
  retry_attempts = 2;
  checkpoint_enabled = true;
  max_concurrency = 8;
  mode = "standard";
}

run_lem_example :
    Ended "exec_7"
      (run_record name hash quick tt Value.null none none "exec_7" [] no_state 5 "ckpt_7" runtime
        written)
      (outcome quick tt
        (run_context name hash quick tt Value.null none none "exec_7" [] no_state 5 "ckpt_7"
          runtime)
        (run_record name hash quick tt Value.null none none "exec_7" [] no_state 5 "ckpt_7" runtime
          written)
        "ckpt_7"
        (created_runtime name hash quick tt Value.null none none "exec_7" [] no_state 5 "ckpt_7"
          runtime written))
      (run name hash quick tt Value.null none none "exec_7" [] no_state 5 "ckpt_7" runtime).1
unfolding to_dict acquire_lock
run_lem_example =
    run_lem name hash quick tt Value.null none none "exec_7" [] no_state 5 "ckpt_7" runtime written
      refl refl

abbrev reloaded : ExecutionPolicy
reloaded = record policy { mode = raw "standard" }

run-reloaded_example :
    run name hash quick tt Value.null (some reloaded) none "exec_7" [] no_state 5 "ckpt_7" runtime
    ≡ (err (python PythonClass.attribute_error), runtime)
unfolding to_dict of_dict
run-reloaded_example =
    run-reloaded name hash quick tt Value.null none none "exec_7" [] no_state 5 "ckpt_7" runtime
      policy reloaded written refl refl

-- An approval that waits, with its record and its checkpoint.
abbrev asked : ApprovalRecord
asked = record {
  approval_id = "apr_1";
  message = "sure?";
  status = "pending";
  decided_by = none;
  note = none;
  payload = Value.null;
}

abbrev waiting_record : ExecutionRecord
waiting_record = record stored { status = waiting_for_approval }

abbrev waiting_checkpoint : Checkpoint
waiting_checkpoint = record checkpoint {
  state = record no_state { approvals = ("apr_1", asked) ∷ [] };
}

abbrev waiting_runtime : Runtime (Unit {0})
unfolding save_execution save_checkpoint
waiting_runtime = record runtime {
  store = save_checkpoint (save_execution runtime.store waiting_record) waiting_checkpoint;
}

resume_lem_example :
    Ended "exec_1" waiting_record
      (outcome quick tt
        (resumed_context name hash quick "exec_1"
          (some tt)
          none
          50
          "ckpt_7"
          waiting_runtime
          waiting_checkpoint
          waiting_record)
        waiting_record
        "ckpt_7"
        (resumed_runtime name hash quick "exec_1"
          (some tt)
          none
          50
          "ckpt_7"
          waiting_runtime
          waiting_checkpoint
          waiting_record))
      (resume name hash quick "exec_1" (some tt) none 50 "ckpt_7" waiting_runtime).1
unfolding get_execution latest_checkpoint list_checkpoints acquire_lock known_target Dict.get
    Dict.put save_execution save_checkpoint
resume_lem_example =
    resume_lem name hash quick "exec_1" (some tt) none 50 "ckpt_7" waiting_runtime waiting_record
      waiting_checkpoint tt refl refl refl refl refl refl refl

restored-create_checkpoint_example :
    (k : Checkpoint) × (latest_checkpoint
        (create_checkpoint context none "node" "ckpt_2" runtime).1.store
        "exec_1"
      ≡ some k)
    × Continues context (restored "exec_1" k stored policy [] 50)
    × ((restored "exec_1" k stored policy [] 50).cached_tokens ≡ 0)
restored-create_checkpoint_example =
    restored-create_checkpoint context none "node" "ckpt_2" runtime stored policy [] 50 refl

decide_lem_example :
    ((decide "exec_1" (some "apr_1") "approved" none none "ckpt_3" waiting_runtime).0 ≡ ok tt)
    × (after : Checkpoint) × (latest_checkpoint
          (decide "exec_1" (some "apr_1") "approved" none none "ckpt_3" waiting_runtime).1.store
          "exec_1"
        ≡ some after)
    × Decided waiting_checkpoint after "apr_1" asked "approved" none none
unfolding get_execution latest_checkpoint list_checkpoints Dict.get Dict.put save_execution
    save_checkpoint
decide_lem_example =
    decide_lem "exec_1" "approved" none none "ckpt_3" waiting_runtime waiting_record
      waiting_checkpoint "apr_1" asked refl refl refl refl refl refl
