-- ===== src/Tests/Data.antt =====
-- Test data: an execution of coflowai/core/context.py with its policy and record, and a job of
-- coflowai/distributed/queue.py.
use coflowai.Base.{none, some, true, false, List, [], ◌∷◌, Value}
use coflowai.Core.Types.{created, completed, standard}
use coflowai.Core.Result.{ExecutionResult}
use coflowai.Core.Context.{ExecutionContext}
use coflowai.Policies.Permissions.{Text}
use coflowai.Policies.Policy.{ExecutionPolicy, member, default_retry}
use coflowai.State.Checkpoint.{ExecutionRecord, Checkpoint, no_state}
use coflowai.State.Store.{empty_store}
use coflowai.Distributed.Queue.{Job}
use coflowai.Runtime.Runtime.{Runtime}

abbrev pub policy : ExecutionPolicy
policy = record {
  max_steps = 20;
  timeout_seconds = some 300;
  max_model_calls = 2;
  max_tool_calls = 4;
  max_tokens = some 1000;
  max_cost = none;
  retry_attempts = 2;
  checkpoint_enabled = true;
  max_concurrency = 8;
  mode = member standard;
  structured_output_repair_attempts = 2;
  model_timeout_seconds = some 60000;
  tool_timeout_seconds = some 30000;
  retry = default_retry;
}

-- The permissions "a.*" and "b".
abbrev pub granted : List Text
granted = (b'a' ∷ b'.' ∷ b'*' ∷ []) ∷ (b'b' ∷ []) ∷ []

abbrev pub context : ExecutionContext
context = record {
  execution_id = "exec_1";
  input = Value.text "hello";
  state = no_state;
  metadata = [];
  step = 3;
  model_calls = 1;
  tool_calls = 2;
  input_tokens = 100;
  output_tokens = 50;
  cached_tokens = 0;
  cost = 7;
  policy = policy;
  permissions = granted;
  status = created;
  node_id = none;
  agent_name = none;
  started_at = 10;
  deadline = some 310;
  cancelled = false;
  budget_warned = false;
}

abbrev pub later_context : ExecutionContext
later_context = record context { step = 5; model_calls = 2; output_tokens = 80; cost = 9 }

abbrev pub stored : ExecutionRecord
stored = record {
  execution_id = "exec_1";
  status = created;
  input = Value.text "hello";
  output = Value.null;
  error = none;
  executable = "agent";
  workflow_hash = none;
  policy = none;
  metadata = [];
}

abbrev pub result : ExecutionResult
result = record {
  execution_id = "exec_1";
  status = completed;
  output = Value.text "done";
  error = none;
  checkpoint_id = none;
}

abbrev pub checkpoint : Checkpoint
checkpoint = record {
  execution_id = "exec_1";
  step = 3;
  node_id = none;
  state = no_state;
  model_calls = 1;
  tool_calls = 2;
  input_tokens = 100;
  output_tokens = 50;
  cost = 7;
  status = created;
  workflow_hash = none;
  reason = "node";
  checkpoint_id = "ckpt_1";
}

abbrev pub job : Job
job = record {
  kind = "run";
  execution_id = "exec_1";
  executable = "agent";
  input = Value.text "hello";
  policy = none;
  metadata = [];
  job_id = "job_1";
  attempts = 0;
}

-- A runtime whose executables are of the unit type.
abbrev pub runtime : Runtime (Unit {0})
runtime = record {
  store = empty_store;
  events = [];
  active = [];
  executables = [];
  policies = [];
  permissions = granted;
  default_policy = policy;
}
