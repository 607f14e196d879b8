-- ===== src/State/Checkpoint.antt =====
-- coflowai/state/checkpoint.py and the state that a checkpoint copies. `context.state` is one dict
-- in the program; its reserved keys are fields here, and `user` holds the other keys. Time stamps
-- are not modelled.
use coflowai.Base.{ℕ, ◌+◌, String, Option, none, List, [], Value}
use coflowai.Base.Dict.{Dict}
use coflowai.Core.Types.{ExecutionStatus}
use coflowai.Core.Errors.{Error}
use coflowai.Core.Messages.{Message, Override}
use coflowai.Policies.Policy.{PolicyDict}

-- approvals/approval.py: `status` is "pending", "approved" or "rejected".
pub record ApprovalRecord : Type 0 where
  pub approval_id : String
  pub message : String
  pub status : String
  pub decided_by : Option String
  pub note : Option String
  pub payload : Value

pub record ExecutionState : Type 0 where
  -- "__approvals__"
  pub approvals : Dict ApprovalRecord
  -- "__workflow_hash__:<name>" and its root alias "__workflow_hash__"
  pub hashes : Dict String
  pub root_hash : Option String
  -- "__completed_nodes__:<name>" and "__last_output__:<name>"
  pub completed : Dict (Dict Value)
  pub last_output : Dict Value
  -- "__idempotency__" and "__tool_overrides__"
  pub idempotency : Dict Value
  pub tool_overrides : Dict Value
  -- "__model_overrides__": the entries whose key is a text, and those whose key is a number
  pub model_overrides : Dict Override
  pub numbered_overrides : List (ℕ × Override)
  -- "__conversation__<node or agent>"
  pub conversations : Dict (List Message)
  pub user : Dict Value

abbrev pub no_state : ExecutionState
no_state = record {
  approvals = [];
  hashes = [];
  root_hash = none;
  completed = [];
  last_output = [];
  idempotency = [];
  tool_overrides = [];
  model_overrides = [];
  numbered_overrides = [];
  conversations = [];
  user = [];
}

pub record Checkpoint : Type 0 where
  pub execution_id : String
  pub step : ℕ
  pub node_id : Option String
  pub state : ExecutionState
  pub model_calls : ℕ
  pub tool_calls : ℕ
  pub input_tokens : ℕ
  pub output_tokens : ℕ
  pub cost : ℕ
  pub status : ExecutionStatus
  pub workflow_hash : Option String
  pub reason : String
  pub checkpoint_id : String

abbrev pub tokens_used : Checkpoint → ℕ
tokens_used c = c.input_tokens + c.output_tokens

-- The text in `error`: the `repr` of an exception, or the reason of a cancellation.
pub data ErrorText : Type 0 where
  repr : Error → ErrorText
  reason_text : String → ErrorText

pub record ExecutionRecord : Type 0 where
  pub execution_id : String
  pub status : ExecutionStatus
  pub input : Value
  pub output : Value
  pub error : Option ErrorText
  pub executable : String
  pub workflow_hash : Option String
  pub policy : Option PolicyDict
  pub metadata : Dict Value

unfoldable pub touch : ExecutionRecord → ExecutionStatus → ExecutionRecord
touch r s = record r { status = s }
