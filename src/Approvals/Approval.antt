-- ===== src/Approvals/Approval.antt =====
-- coflowai/approvals/approval.py: `HumanApproval`. The guarded action is a function from a context
-- to its outcome and the context after it. `_summarise`, which shortens the payload, is an
-- argument.
pub mod Gate
use coflowai.Base.{ℕ, String, Option, none, some, Value, str_eq, if◌then◌else◌}
use coflowai.Base.Dict
use coflowai.Core.Types.{completed}
use coflowai.Core.Errors.{ErrorClass, plain, Result, ok, err}
use coflowai.Core.Context.{ExecutionContext, ensure_alive, or_text}
use coflowai.State.Checkpoint.{ApprovalRecord}
use coflowai.Runtime.Drive.{Outcome, returned, approval, raised}

abbrev pub Action : Type 0
Action = ExecutionContext → Outcome × ExecutionContext

pub record HumanApproval : Type 0 where
  pub name : String
  pub message : String
  pub action : Option Action
  pub approval_id : Option String
  pub on_reject : String

abbrev pub text_or : Option String → String → String
text_or none other = other
text_or (some t) other = if str_eq t "" then other else t

-- `_id`: `self.approval_id or context.node_id or self.name`
unfoldable pub gate_id : HumanApproval → ExecutionContext → String
gate_id h c = text_or (or_text h.approval_id c.node_id) h.name

module _ (summarise : Value → Value) where
  -- The result with the input as its output.
  abbrev pub passed : ExecutionContext → Outcome
  passed c = returned (record {
    execution_id = c.execution_id;
    status = completed;
    output = c.input;
    error = none;
    checkpoint_id = none;
  })

  unfoldable pub new_approval : HumanApproval → (id : String) → ExecutionContext → ApprovalRecord
  new_approval h id c = record {
    approval_id = id;
    message = h.message;
    status = "pending";
    decided_by = none;
    note = none;
    payload = summarise c.input;
  }

  abbrev pub ask : HumanApproval → (id : String) → ExecutionContext → ExecutionContext
  unfolding new_approval
  ask h id c = record c {
    state = record c.state { approvals = Dict.put c.state.approvals id (new_approval h id c) };
  }

  abbrev pub run_action : Option Action → ExecutionContext → Outcome × ExecutionContext
  run_action none c = (passed c, c)
  run_action (some act) c = act c

  -- By the entry of the ledger.
  unfoldable pub by_entry :
      HumanApproval
      → (id : String) → ExecutionContext
      → Option ApprovalRecord
      → Outcome × ExecutionContext
  unfolding new_approval
  by_entry h id c none = (approval id c.node_id, ask h id c)
  by_entry h id c (some a) =
      let approved = run_action h.action c in
      if str_eq a.status "pending"
      then (approval id c.node_id, c)
      else if str_eq a.status "rejected"
      then if str_eq h.on_reject "skip"
        then (passed c, c)
        else (raised (plain ErrorClass.approval_rejected), c)
      else approved

  unfoldable pub guarded :
      HumanApproval → ExecutionContext → Result (Unit {0}) → Outcome × ExecutionContext
  unfolding by_entry gate_id
  guarded h c (err e) = (raised e, c)
  guarded h c (ok u) = by_entry h (gate_id h c) c (Dict.get c.state.approvals (gate_id h c))

  unfoldable pub execute : HumanApproval → (now : ℕ) → ExecutionContext → Outcome × ExecutionContext
  unfolding guarded
  execute h now c = guarded h c (ensure_alive now c)
