-- ===== src/Distributed/Service.antt =====
-- coflowai/distributed/worker.py: `ExecutionService`, over the store and the queue. An executable is
-- passed as itself or by name; fresh ids are arguments. `wait` polls and is not modelled.
pub mod Submission
use coflowai.Base.{String, Option, none, some, Bool, [], ◌∷◌, Value, str_eq, if◌then◌else◌}
use coflowai.Base.Dict
use coflowai.Base.Dict.{Dict}
use coflowai.Core.Types.{created}
use coflowai.Core.Errors.{Result, ok, err}
use coflowai.Policies.Policy.{ExecutionPolicy, PolicyDict, to_dict}
use coflowai.State.Checkpoint.{ExecutionRecord}
use coflowai.State.Store.{Store, save_execution, get_execution}
use coflowai.Distributed.Queue.{Job, JobQueue, enqueue}
use coflowai.Distributed.Worker.{RuntimeOps, register}

pub record Service (E : Type 0) : Type 0 where
  pub store : Store
  pub jobs : JobQueue
  pub executables : Dict E

pub data Target (E : Type 0) : Type 0 where
  itself : E → Target E
  by_name : String → Target E

-- `policy.to_dict() if policy else {}`
unfoldable pub policy_dict : Option ExecutionPolicy → Result (Option PolicyDict)
policy_dict none = ok none
policy_dict (some p) = elim (to_dict p) [ ok d ↦ ok (some d) | err e ↦ err e ]

-- `or_dict or ""`
abbrev record_name : Option ExecutionRecord → String
record_name none = ""
record_name (some r) = r.executable

module _ {E W R : Type 0} (ops : RuntimeOps E W R) where
  unfoldable pub target_name : Target E → String
  target_name (itself e) = ops.name e
  target_name (by_name n) = n

  unfoldable pub register_target : Dict E → Target E → Result (Dict E)
  unfolding register
  register_target items (itself e) = register ops items e (some (ops.name e))
  register_target items (by_name n) = ok items

  -- The record that is saved and the job that is queued, in this order.
  unfoldable pub intent :
      Target E → Value → Option PolicyDict → Dict Value → String → ExecutionRecord
  unfolding target_name
  intent target input policy metadata id = record {
    execution_id = id;
    status = created;
    input = input;
    output = Value.null;
    error = none;
    executable = target_name target;
    workflow_hash = none;
    policy = policy;
    metadata = metadata;
  }

  unfoldable pub run_job : Target E → Value → Option PolicyDict → Dict Value → String → String → Job
  unfolding target_name
  run_job target input policy metadata id job_id = record {
    kind = "run";
    execution_id = id;
    executable = target_name target;
    input = input;
    policy = policy;
    metadata = metadata;
    job_id = job_id;
    attempts = 0;
  }

  -- The body of `submit`, by the outcomes of the registration and of `policy.to_dict()`.
  unfoldable pub submit_with :
      Target E
      → Value
      → Dict Value
      → (id job_id : String) → Service E
      → Result (Dict E)
      → Result (Option PolicyDict)
      → Result String × Service E
  submit_with target input metadata id job_id s (err x) policy = (err x, s)
  submit_with target input metadata id job_id s (ok items) (err x) =
      (err x, record s { executables = items })
  submit_with target input metadata id job_id s (ok items) (ok policy) = (
    ok id,
    record {
      store = save_execution s.store (intent target input policy metadata id);
      jobs = enqueue s.jobs (run_job target input policy metadata id job_id);
      executables = items;
    },
  )

  unfoldable pub submit :
      Target E
      → Value
      → Option ExecutionPolicy
      → Dict Value
      → (id job_id : String) → Service E
      → Result String × Service E
  unfolding register_target policy_dict submit_with intent run_job
  submit target input policy metadata id job_id s =
      submit_with target input metadata id job_id s (register_target s.executables target)
        (policy_dict policy)

  -- `executable or (record.executable if record else "")`
  unfoldable pub resume_name : Option String → Option ExecutionRecord → String
  resume_name none r = record_name r
  resume_name (some n) r = if str_eq n "" then record_name r else n

  unfoldable pub submit_resume : String → Option String → (job_id : String) → Service E → Service E
  unfolding resume_name
  submit_resume id executable job_id s = record s {
    jobs = enqueue s.jobs (record {
      kind = "resume";
      execution_id = id;
      executable = resume_name executable (get_execution s.store id);
      input = Value.null;
      policy = none;
      metadata = [];
      job_id = job_id;
      attempts = 0;
    });
  }

  -- The texts and `None`s of the metadata are JSON values.
  abbrev optional_text : Option String → Value
  optional_text none = Value.null
  optional_text (some t) = Value.text t

  unfoldable pub submit_decision :
      String
      → (approved : Bool) → (approval_id by note : Option String) → (job_id : String) → Service E
      → Service E
  submit_decision id approved approval_id by note job_id s = record s {
    jobs = enqueue s.jobs (record {
      kind = if approved then "approve" else "reject";
      execution_id = id;
      executable = record_name (get_execution s.store id);
      input = Value.null;
      policy = none;
      metadata =
          ("approval_id", optional_text approval_id)
          ∷ ("by", optional_text by)
          ∷ ("note", optional_text note)
          ∷ [];
      job_id = job_id;
      attempts = 0;
    });
  }

  unfoldable pub status : String → Service E → Option ExecutionRecord
  status id s = get_execution s.store id
