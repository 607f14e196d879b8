-- ===== src/Approvals/Approval/Gate.antt =====
-- How the gate of coflowai/approvals/approval.py goes from its question over a decision to its action.
use coflowai.Base.{
  ℕ, ◌≡◌, refl, ap, ◌∙◌, String, Option, none, some, Value, str_eq, if◌then◌else◌, Bool-cases, inl,
  inr,
}
use coflowai.Base.Dict
use coflowai.Base.Dict.{get-put_self}
use coflowai.Core.Types.{completed}
use coflowai.Core.Errors.{ErrorClass, plain, ok}
use coflowai.Core.Context.{ExecutionContext, ensure_alive}
use coflowai.State.Checkpoint.{ApprovalRecord}
use coflowai.Runtime.Drive.{Outcome, approval, raised, returned}
use coflowai.Approvals.Approval.{
  HumanApproval, Action, gate_id, run_action, new_approval, by_entry, guarded, execute,
}

module _ (summarise : Value → Value) (h : HumanApproval) (now : ℕ) (c : ExecutionContext) where
  -- The entry that the question leaves, with a status, who decided and the remark.
  abbrev pub entry_with : (status : String) → (by remark : Option String) → ApprovalRecord
  entry_with status by remark = record {
    approval_id = gate_id h c;
    message = h.message;
    status = status;
    decided_by = by;
    note = remark;
    payload = summarise c.input;
  }

  -- The context in which the ledger has this entry.
  abbrev pub context_with : (status : String) → (by remark : Option String) → ExecutionContext
  context_with status by remark = record c {
    state = record c.state {
      approvals = Dict.put c.state.approvals (gate_id h c) (entry_with status by remark);
    };
  }

  -- The input, as the output of a result.
  abbrev pub input_returned : Outcome
  input_returned = returned (record {
    execution_id = c.execution_id;
    status = completed;
    output = c.input;
    error = none;
    checkpoint_id = none;
  })

  -- What an approved gate does in a context.
  abbrev pub passes : Option Action → ExecutionContext → Outcome × ExecutionContext
  passes none k = (input_returned, k)
  passes (some act) k = act k

  -- The runs of the gate before and after a decision.
  pub record Gated (by remark : Option String) : Type 0 where
    pub asked :
        execute summarise h now c
        ≡ (approval (gate_id h c) c.node_id, context_with "pending" none none)
    pub again :
        execute summarise h now (context_with "pending" none none)
        ≡ (approval (gate_id h c) c.node_id, context_with "pending" none none)
    pub approved :
        execute summarise h now (context_with "approved" by remark)
        ≡ passes h.action (context_with "approved" by remark)
    pub rejected : execute summarise h now (context_with "rejected" by remark) ≡ (
      (if str_eq h.on_reject "skip"
          then input_returned
          else raised (plain ErrorClass.approval_rejected)),
      context_with "rejected" by remark,
    )

  -- An execution that finds the entry, while it is alive.
  execute-entry :
      (status : String) (by remark : Option String)
      → ensure_alive now c ≡ ok tt
      → execute summarise h now (context_with status by remark)
        ≡ by_entry summarise h
            (gate_id h c)
            (context_with status by remark)
            (some (entry_with status by remark))
  unfolding execute guarded ensure_alive gate_id
  execute-entry status by remark alive =
      rw (alive, guarded)
        (ap (by_entry summarise h (gate_id h c) (context_with status by remark))
          (get-put_self c.state.approvals (gate_id h c) (entry_with status by remark)))

  execute-new :
      ensure_alive now c ≡ ok tt
      → Dict.get c.state.approvals (gate_id h c) ≡ none
      → execute summarise h now c
        ≡ (approval (gate_id h c) c.node_id, context_with "pending" none none)
  unfolding execute guarded by_entry new_approval
  execute-new alive new = rw (alive, guarded) (ap (by_entry summarise h (gate_id h c) c) new)

  approved-action :
      (by remark : Option String) (action : Option Action) (k : ExecutionContext)
      → k ≡ context_with "approved" by remark
      → run_action summarise action k ≡ passes action k
  approved-action by remark none k e =
      ap
        (λ x. (
          returned (record {
            execution_id = x.execution_id;
            status = completed;
            output = x.input;
            error = none;
            checkpoint_id = none;
          }),
          k,
        ))
        e
  approved-action by remark (some act) k e = refl

  -- In an execution that is alive and has no entry for it yet, the gate enters the question, with its
  -- message and the summary of the input, as pending and asks; with that entry in the ledger it asks
  -- again and changes nothing. Once the entry is approved, whoever decided, it does its action, or
  -- without one gives its input as output; once it is rejected, it raises, or gives its input as
  -- output if it is to skip.
  pub execute_lem :
      (by remark : Option String)
      → ensure_alive now c ≡ ok tt
      → Dict.get c.state.approvals (gate_id h c) ≡ none
      → Gated by remark
  execute_lem by remark alive new = record {
    asked = execute-new alive new;
    again = execute-entry "pending" none none alive ∙ unfold by_entry in refl;
    approved =
        execute-entry "approved" by remark alive
        ∙ unfold by_entry in
          approved-action by remark h.action (context_with "approved" by remark) refl;
    rejected =
        execute-entry "rejected" by remark alive
        ∙ unfold by_entry in
          (elim (Bool-cases (str_eq h.on_reject "skip")) [
            | inl k ↦ rw (k, if◌then◌else◌) refl
            | inr k ↦ rw (k, if◌then◌else◌) refl
          ]);
  }
