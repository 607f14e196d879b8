-- ===== src/Runtime/Runtime.antt =====
-- coflowai/runtime/runtime.py, the state of `Runtime` and the parts of an execution: checkpoints,
-- status transitions, and the three ways to end. Fresh ids are arguments; usage, metrics, traces and
-- the texts of messages are not modelled.
use coflowai.Base.{String, Option, none, some, ◌||◌, List, Value, if◌then◌else◌}
use coflowai.Base.Dict.{Dict}
use coflowai.Core.Types.{
  ExecutionStatus, waiting_for_approval, completed, failed, cancelled, timed_out, is_status,
  in_statuses, terminal_statuses, valid_transitions,
}
use coflowai.Core.Errors.{ErrorClass, Error, plain, wrapping, python, Result, ok, err}
use coflowai.Core.Result.{ExecutionResult, paused}
use coflowai.Core.Context.{ExecutionContext, Event, event, or_text}
use coflowai.Policies.Permissions.{Text}
use coflowai.Policies.Policy.{ExecutionPolicy}
use coflowai.State.Checkpoint.{Checkpoint, ExecutionRecord, repr, touch}
use coflowai.State.Store.{Store, save_execution, save_checkpoint}
use coflowai.Events.InMemory

-- `E` is the type of the executables. The running contexts, the executables and the policies are
-- kept by execution id.
pub record Runtime (E : Type 0) : Type 0 where
  pub store : Store
  pub events : Dict (List Event)
  pub active : Dict ExecutionContext
  pub executables : Dict E
  pub policies : Dict ExecutionPolicy
  pub permissions : List Text
  pub default_policy : ExecutionPolicy

-- `_status_for`
abbrev pub status_of_class : ErrorClass → ExecutionStatus
status_of_class ErrorClass.execution_timeout = timed_out
status_of_class ErrorClass.execution_cancelled = cancelled
status_of_class _ = failed

unfoldable pub status_for : Error → ExecutionStatus
status_for (plain c) = status_of_class c
status_for (wrapping c cause) = status_of_class c
status_for (python p) = failed

-- `_transition`: the record with its new status, or the error of an illegal transition.
unfoldable pub transition : ExecutionRecord → ExecutionStatus → Result ExecutionRecord
transition r status =
    if is_status r.status status
    then ok r
    else if in_statuses status (valid_transitions r.status)
    then ok (touch r status)
    else err (plain ErrorClass.execution_error)

abbrev pub checkpoint_of : ExecutionContext → Option String → String → String → Checkpoint
checkpoint_of c node_id reason id = record {
  execution_id = c.execution_id;
  step = c.step;
  node_id = or_text node_id c.node_id;
  state = c.state;
  model_calls = c.model_calls;
  tool_calls = c.tool_calls;
  input_tokens = c.input_tokens;
  output_tokens = c.output_tokens;
  cost = c.cost;
  status = c.status;
  workflow_hash = c.state.root_hash;
  reason = reason;
  checkpoint_id = id;
}

-- The status with which `_complete` ends an execution.
unfoldable pub final_status : ExecutionResult → ExecutionStatus
final_status r = if in_statuses r.status terminal_statuses || paused r then r.status else completed

abbrev pub id_of : Option Checkpoint → Option String
id_of none = none
id_of (some c) = some c.checkpoint_id

abbrev pub failure_event : ExecutionStatus → String
failure_event timed_out = "execution.timeout"
failure_event cancelled = "execution.cancelled"
failure_event _ = "execution.failed"

-- `f"failure:{status.value}"`
abbrev pub failure_reason : ExecutionStatus → String
failure_reason timed_out = "failure:timed_out"
failure_reason cancelled = "failure:cancelled"
failure_reason _ = "failure:failed"

module _ {E : Type 0} where
  unfoldable pub publish : Runtime E → Event → Runtime E
  publish rt e = record rt { events = InMemory.append rt.events e }

  abbrev pub emit : Runtime E → ExecutionContext → String → Runtime E
  emit rt c type = publish rt (event c type)

  abbrev pub save : Runtime E → ExecutionRecord → Runtime E
  save rt r = record rt { store = save_execution rt.store r }

  unfoldable pub create_checkpoint :
      ExecutionContext
      → Option String
      → (reason id : String) → Runtime E
      → Option Checkpoint × Runtime E
  unfolding publish
  create_checkpoint c node_id reason id rt =
      let stored = checkpoint_of c node_id reason id in
      if c.policy.checkpoint_enabled
      then (
        some stored,
        emit (record rt { store = save_checkpoint rt.store stored }) c "checkpoint.created",
      )
      else (none, rt)

  -- `_complete`, by the outcome of the transition.
  unfoldable pub complete_with :
      ExecutionContext
      → ExecutionResult
      → (id : String) → Runtime E
      → Result ExecutionRecord
      → Result ExecutionResult × Runtime E
  unfolding create_checkpoint final_status
  complete_with c result id rt (err e) = (err e, rt)
  complete_with c result id rt (ok r) =
      let c' = record c { status = final_status result } in
      let saved = save rt (record r { output = result.output }) in
      let (ckpt, marked) = create_checkpoint c' none "final" id saved in
      (ok (record result { execution_id = c.execution_id }), emit marked c' "execution.completed")

  unfoldable pub complete :
      ExecutionRecord
      → ExecutionContext
      → ExecutionResult
      → (id : String) → Runtime E
      → Result ExecutionResult × Runtime E
  unfolding complete_with transition
  complete r c result id rt = complete_with c result id rt (transition r (final_status result))

  -- `_pause_for_approval`, from the transition on; `c` has its new status.
  unfoldable pub pause_with :
      ExecutionContext
      → Option Checkpoint
      → Runtime E
      → Result ExecutionRecord
      → Result ExecutionResult × Runtime E
  pause_with c ckpt rt (err e) = (err e, rt)
  pause_with c ckpt rt (ok r) = (
    ok (record {
      execution_id = c.execution_id;
      status = waiting_for_approval;
      output = Value.null;
      error = none;
      checkpoint_id = id_of ckpt;
    }),
    emit (emit (save rt r) c "approval.requested") c "execution.paused",
  )

  unfoldable pub pause_for_approval :
      ExecutionRecord
      → ExecutionContext
      → (node_id : Option String) → (id : String) → Runtime E
      → Result ExecutionResult × Runtime E
  unfolding pause_with transition create_checkpoint
  pause_for_approval r c node_id id rt =
      let c' = record c { status = waiting_for_approval } in
      let (ckpt, marked) = create_checkpoint c' node_id "approval" id rt in
      pause_with c' ckpt marked (transition r waiting_for_approval)

  -- `_fail`, from the transition on; `c` has its new status.
  unfoldable pub fail_with :
      ExecutionContext
      → Error
      → Runtime E
      → Result ExecutionRecord
      → Result ExecutionResult × Runtime E
  fail_with c error rt (err e) = (err e, rt)
  fail_with c error rt (ok r) = (
    ok (record {
      execution_id = c.execution_id;
      status = c.status;
      output = Value.null;
      error = some error;
      checkpoint_id = none;
    }),
    emit (save rt (record r { error = some (repr error) })) c (failure_event c.status),
  )

  unfoldable pub fail :
      ExecutionRecord
      → ExecutionContext
      → Error
      → (id : String) → Runtime E
      → Result ExecutionResult × Runtime E
  unfolding fail_with transition create_checkpoint status_for
  fail r c error id rt =
      let status = status_for error in
      let c' = record c { status = status } in
      let (ckpt, marked) = create_checkpoint c' none (failure_reason status) id rt in
      fail_with c' error marked (transition r status)
