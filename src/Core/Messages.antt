-- ===== src/Core/Messages.antt =====
-- coflowai/core/types.py: tool calls, tool results and messages.
use coflowai.Base.{ℕ, String, Option, List, Value}
use coflowai.Core.Errors.{Error}

-- In a result the error is the exception and not its text.
pub record ToolCall : Type 0 where
  pub id : String
  pub name : String
  pub arguments : Value

pub record ToolResult : Type 0 where
  pub call_id : String
  pub name : String
  pub output : Value
  pub error : Option Error
  pub duration_ms : ℕ

-- By the constructors of the class; the role of a message is its constructor.
pub data Message : Type 0 where
  system user : (content : String) → Message
  assistant : (content : Option String) → (tool_calls : List ToolCall) → Message
  tool : (call_id name content : String) → Message

-- coflowai/models/base.py.
pub record ModelResponse : Type 0 where
  pub text : Option String
  pub tool_calls : List ToolCall
  pub input_tokens : ℕ
  pub output_tokens : ℕ
  pub cached_tokens : ℕ
  pub cost : Option ℕ
  pub finish_reason : Option String
  pub model : Option String

-- An entry of "__model_overrides__" of coflowai/models/gateway.py: a response, a dict with the key
-- "text", whose "finish_reason" may be missing, or another value.
pub data Override : Type 0 where
  response : ModelResponse → Override
  entry : (text : Option String) → (finish_reason : Option (Option String)) → Override
  bare : Value → Override
