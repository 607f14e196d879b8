-- ===== src/Core/Result.antt =====
-- coflowai/core/result.py: `ExecutionResult`. Usage, metadata and messages are not modelled.
use coflowai.Base.{String, Option, none, some, Bool, ◌||◌, Value}
use coflowai.Core.Types.{ExecutionStatus, waiting, waiting_for_approval, completed, is_status}
use coflowai.Core.Errors.{ErrorClass, Error, plain, Result, ok, err}

pub record ExecutionResult : Type 0 where
  pub execution_id : String
  pub status : ExecutionStatus
  pub output : Value
  pub error : Option Error
  pub checkpoint_id : Option String

abbrev pub succeeded : ExecutionResult → Bool
succeeded r = is_status r.status completed

abbrev pub paused : ExecutionResult → Bool
paused r = is_status r.status waiting || is_status r.status waiting_for_approval

unfoldable pub raise_for_status : ExecutionResult → Result ExecutionResult
raise_for_status r = elim (succeeded r) [
  | Bool.true ↦ ok r
  | Bool.false ↦ elim r.error [ some e ↦ err e | none ↦ err (plain ErrorClass.co_flow_ai_error) ]
]
