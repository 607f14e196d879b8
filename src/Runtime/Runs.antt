-- ===== src/Runtime/Runs.antt =====
-- coflowai/runtime/runtime.py: `run`, `resume`, `approve` and `reject`. The name and the hash of an
-- executable are arguments, as are the fresh ids and the clock. A new `ExecutionPolicy` is passed by
-- the caller or is the default of the runtime.
pub mod Ends
pub mod Restoring
use coflowai.Base.{ℕ, String, Option, none, some, false, List, Value, if◌then◌else◌}
use coflowai.Base.Dict
use coflowai.Base.Dict.{Dict}
use coflowai.Core.Types.{created, in_statuses, resumable_statuses}
use coflowai.Core.Errors.{ErrorClass, plain, Result, ok, err}
use coflowai.Core.Result.{ExecutionResult}
use coflowai.Core.Context.{ExecutionContext, initial_deadline}
use coflowai.Policies.Permissions.{Text}
use coflowai.Policies.Policy.{ExecutionPolicy, PolicyDict, to_dict}
use coflowai.State.Checkpoint.{ExecutionState, Checkpoint, ExecutionRecord}
use coflowai.State.Store.{latest_checkpoint}
use coflowai.Runtime.Runtime.{Runtime, emit, save}
use coflowai.Runtime.Drive.{Outcome, hash_differs, drive}
use coflowai.Runtime.Control.{require_record, decide}

-- `a or b`, of policies or permission sets, where `a` may be absent.
abbrev pub or_default {ℓ} : {A : Type ℓ} → Option A → A → A
or_default none b = b
or_default (some a) b = a

-- The context that `resume` makes; `cached_tokens` starts from 0.
unfoldable pub restored :
    (id : String)
    → Checkpoint
    → ExecutionRecord
    → ExecutionPolicy
    → List Text
    → (now : ℕ) → ExecutionContext
unfolding initial_deadline
restored id k r policy permissions now = record {
  execution_id = id;
  input = r.input;
  state = k.state;
  metadata = r.metadata;
  step = k.step;
  model_calls = k.model_calls;
  tool_calls = k.tool_calls;
  input_tokens = k.input_tokens;
  output_tokens = k.output_tokens;
  cached_tokens = 0;
  cost = k.cost;
  policy = policy;
  permissions = permissions;
  status = created;
  node_id = none;
  agent_name = none;
  started_at = now;
  deadline = initial_deadline none policy.timeout_seconds now;
  cancelled = false;
  budget_warned = false;
}

module _ {E : Type 0} (name : E → String) (hash : E → Option String)
    (execute : E → ExecutionContext → Runtime E → Outcome × ExecutionContext × Runtime E) where
  -- The record and the context of a new execution.
  unfoldable pub new_record :
      E → Value → PolicyDict → (id : String) → (metadata : Dict Value) → ExecutionRecord
  new_record target input d id metadata = record {
    execution_id = id;
    status = created;
    input = input;
    output = Value.null;
    error = none;
    executable = name target;
    workflow_hash = hash target;
    policy = some d;
    metadata = metadata;
  }

  unfoldable pub new_context :
      Value
      → ExecutionPolicy
      → List Text
      → (id : String) → (metadata : Dict Value) → ExecutionState
      → (now : ℕ) → ExecutionContext
  unfolding initial_deadline
  new_context input policy permissions id metadata state now = record {
    execution_id = id;
    input = input;
    state = state;
    metadata = metadata;
    step = 0;
    model_calls = 0;
    tool_calls = 0;
    input_tokens = 0;
    output_tokens = 0;
    cached_tokens = 0;
    cost = 0;
    policy = policy;
    permissions = permissions;
    status = created;
    node_id = none;
    agent_name = none;
    started_at = now;
    deadline = initial_deadline none policy.timeout_seconds now;
    cancelled = false;
    budget_warned = false;
  }

  -- `run`, by the outcome of `policy.to_dict()`; `ckpt` names the checkpoint of the end.
  unfoldable pub run_with :
      E
      → ExecutionContext
      → (ckpt : String) → Runtime E
      → Result PolicyDict
      → Result ExecutionResult × Runtime E
  unfolding new_record
  run_with target c ckpt rt (err e) = (err e, rt)
  run_with target c ckpt rt (ok d) =
      let r = new_record target c.input d c.execution_id c.metadata in
      drive execute target c r ckpt (emit (save rt r) c "execution.created")

  unfoldable pub run :
      E
      → Value
      → Option ExecutionPolicy
      → (permissions : Option (List Text)) → (id : String) → (metadata : Dict Value)
      → ExecutionState
      → (now : ℕ) → (ckpt : String) → Runtime E
      → Result ExecutionResult × Runtime E
  unfolding run_with new_context
  run target input policy permissions id metadata state now ckpt rt =
      let p = or_default policy rt.default_policy in
      let c = new_context input p (or_default permissions rt.permissions) id metadata state now in
      run_with target c ckpt rt (to_dict p)

  -- The part of `resume` from the checkpoint on.
  unfoldable pub resume_from :
      (id : String)
      → E
      → ExecutionRecord
      → Option ExecutionPolicy
      → (now : ℕ) → (ckpt : String) → Runtime E
      → Option Checkpoint
      → Result ExecutionResult × Runtime E
  unfolding restored
  resume_from id target r policy now ckpt rt none = (err (plain ErrorClass.checkpoint_error), rt)
  resume_from id target r policy now ckpt rt (some k) =
      let kept = or_default (Dict.get rt.policies id) rt.default_policy in
      let c = restored id k r (or_default policy kept) rt.permissions now in
      if hash_differs k.workflow_hash (hash target)
      then (err (plain ErrorClass.checkpoint_error), rt)
      else drive execute target c r ckpt
          (emit (emit rt c "checkpoint.restored") c "execution.resumed")

  -- `executable`, or the one that this runtime knows for the execution.
  unfoldable pub known_target : Option E → (id : String) → Runtime E → Option E
  known_target none id rt = Dict.get rt.executables id
  known_target (some e) id rt = some e

  unfoldable pub resume_target :
      (id : String)
      → ExecutionRecord
      → Option ExecutionPolicy
      → (now : ℕ) → (ckpt : String) → Runtime E
      → Option E
      → Result ExecutionResult × Runtime E
  unfolding resume_from
  resume_target id r policy now ckpt rt none = (err (plain ErrorClass.execution_error), rt)
  resume_target id r policy now ckpt rt (some target) =
      resume_from id target r policy now ckpt rt (latest_checkpoint rt.store id)

  unfoldable pub resume_record :
      (id : String)
      → Option E
      → Option ExecutionPolicy
      → (now : ℕ) → (ckpt : String) → Runtime E
      → Result ExecutionRecord
      → Result ExecutionResult × Runtime E
  unfolding resume_target
  resume_record id executable policy now ckpt rt (err e) = (err e, rt)
  resume_record id executable policy now ckpt rt (ok r) =
      if in_statuses r.status resumable_statuses
      then resume_target id r policy now ckpt rt (known_target executable id rt)
      else (err (plain ErrorClass.execution_error), rt)

  unfoldable pub resume :
      (id : String)
      → Option E
      → Option ExecutionPolicy
      → (now : ℕ) → (ckpt : String) → Runtime E
      → Result ExecutionResult × Runtime E
  unfolding resume_record
  resume id executable policy now ckpt rt =
      resume_record id executable policy now ckpt rt (require_record id rt)

  -- `approve` and `reject`, by the outcome of `_decide`.
  unfoldable pub after_decision :
      (id : String)
      → Option E
      → (now : ℕ) → (ckpt : String) → Result (Unit {0}) × Runtime E
      → Result ExecutionResult × Runtime E
  unfolding resume
  after_decision id executable now ckpt (err e, rt) = (err e, rt)
  after_decision id executable now ckpt (ok u, rt) = resume id executable none now ckpt rt

  unfoldable pub approve :
      (id : String)
      → Option E
      → (approval_id by remark : Option String) → (now : ℕ) → (decided ckpt : String) → Runtime E
      → Result ExecutionResult × Runtime E
  unfolding after_decision
  approve id executable approval_id by remark now decided ckpt rt =
      after_decision id executable now ckpt (decide id approval_id "approved" by remark decided rt)

  unfoldable pub reject :
      (id : String)
      → Option E
      → (approval_id by remark : Option String) → (now : ℕ) → (decided ckpt : String) → Runtime E
      → Result ExecutionResult × Runtime E
  unfolding after_decision
  reject id executable approval_id by remark now decided ckpt rt =
      after_decision id executable now ckpt (decide id approval_id "rejected" by remark decided rt)
