-- ===== src/Runtime/Control.antt =====
-- coflowai/runtime/runtime.py: `run`, `resume`, `approve`, `reject`, `cancel` and what they call.
-- An executable's `hash` is an argument, and so are the fresh ids and the clock.
pub mod Decisions
pub mod Cancelling
use coflowai.Base.{
  ℕ, String, Option, none, some, Bool, true, false, List, [], ◌∷◌, filter, map, str_eq,
  if◌then◌else◌,
}
use coflowai.Base.Dict
use coflowai.Base.Dict.{Dict}
use coflowai.Core.Types.{waiting_for_approval, cancelled, is_status, in_statuses, terminal_statuses}
use coflowai.Core.Errors.{ErrorClass, Error, plain, Result, ok, err}
use coflowai.Core.Context
use coflowai.Core.Context.{ExecutionContext, Event}
use coflowai.State.Checkpoint.{ApprovalRecord, Checkpoint, ExecutionRecord, reason_text}
use coflowai.State.Store.{get_execution, latest_checkpoint, save_checkpoint}
use coflowai.Runtime.Runtime.{Runtime, transition, publish, emit, save}

abbrev execution_error : Error
execution_error = plain ErrorClass.execution_error

abbrev checkpoint_error : Error
checkpoint_error = plain ErrorClass.checkpoint_error

-- Events that `_event` makes, outside any context.
abbrev bare_event : String → String → ℕ → Event
bare_event id type step = record {
  execution_id = id;
  type = type;
  step = step;
  node_id = none;
  sequence = 0;
}

-- The items of the ledger that are pending, in its order.
abbrev is_pending : String × ApprovalRecord → Bool
is_pending (k, a) = str_eq a.status "pending"

unfoldable pub pending_of : Dict ApprovalRecord → List (String × ApprovalRecord)
pending_of ledger = filter is_pending ledger

abbrev first_key : List (String × ApprovalRecord) → Option String
first_key [] = none
first_key ((k, a) ∷ rest) = some k

-- `approval_id or (pending[0] if pending else None)`
unfoldable pub target_of : Option String → Dict ApprovalRecord → Option String
unfolding pending_of
target_of none ledger = first_key (pending_of ledger)
target_of (some id) ledger = if str_eq id "" then first_key (pending_of ledger) else some id

-- The entry with its decision.
abbrev pub decided :
    ApprovalRecord → (decision : String) → (by remark : Option String) → ApprovalRecord
decided a decision by remark = record a { status = decision; decided_by = by; note = remark }

-- The checkpoint that is saved again under a new id.
abbrev pub decide_checkpoint :
    Checkpoint → String → ApprovalRecord → (decision id : String) → Checkpoint
decide_checkpoint k target a decision id = record k {
  state = record k.state { approvals = Dict.put k.state.approvals target a };
  reason = if str_eq decision "approved" then "approval_approved" else "approval_rejected";
  checkpoint_id = id;
}

abbrev entry_of : Option String → Dict ApprovalRecord → Option ApprovalRecord
entry_of none ledger = none
entry_of (some id) ledger = Dict.get ledger id

abbrev text_of : Option String → String
text_of none = ""
text_of (some t) = t

module _ {E : Type 0} where
  unfoldable pub require_record : String → Runtime E → Result ExecutionRecord
  require_record id rt = elim (get_execution rt.store id) [
    | none ↦ err execution_error
    | some r ↦ ok r
  ]

  unfoldable pub pending_approvals : String → Runtime E → List ApprovalRecord
  unfolding pending_of
  pending_approvals id rt = elim (latest_checkpoint rt.store id) [
    | none ↦ []
    | some k ↦ map (λ (p : String × ApprovalRecord). p.1) (pending_of k.state.approvals)
  ]

  -- The end of `_decide`, with the entry that was found.
  unfoldable pub record_decision :
      String
      → Checkpoint
      → (target : String) → Option ApprovalRecord
      → (decision : String) → (by remark : Option String) → (ckpt : String) → Runtime E
      → Result (Unit {0}) × Runtime E
  unfolding publish
  record_decision id k target none decision by remark ckpt rt = (err execution_error, rt)
  record_decision id k target (some a) decision by remark ckpt rt =
      let k' = decide_checkpoint k target (decided a decision by remark) decision ckpt in
      let type = if str_eq decision "approved" then "approval.approved" else "approval.rejected" in
      (
        ok tt,
        publish (record rt { store = save_checkpoint rt.store k' }) (bare_event id type k.step),
      )

  -- `_decide`, with the record and the latest checkpoint that were found.
  unfoldable pub decide_with :
      String
      → (approval_id : Option String) → (decision : String) → (by remark : Option String)
      → (ckpt : String) → Runtime E
      → Option ExecutionRecord
      → Option Checkpoint
      → Result (Unit {0}) × Runtime E
  unfolding record_decision target_of
  decide_with id approval_id decision by remark ckpt rt none k = (err execution_error, rt)
  decide_with id approval_id decision by remark ckpt rt (some r) none =
      if is_status r.status waiting_for_approval
      then (err checkpoint_error, rt)
      else (err execution_error, rt)
  decide_with id approval_id decision by remark ckpt rt (some r) (some k) =
      let target = target_of approval_id k.state.approvals in
      if is_status r.status waiting_for_approval
      then record_decision id k (text_of target) (entry_of target k.state.approvals) decision by
          remark ckpt rt
      else (err execution_error, rt)

  unfoldable pub decide :
      String
      → (approval_id : Option String) → (decision : String) → (by remark : Option String)
      → (ckpt : String) → Runtime E
      → Result (Unit {0}) × Runtime E
  unfolding decide_with
  decide id approval_id decision by remark ckpt rt =
      decide_with id approval_id decision by remark ckpt rt (get_execution rt.store id)
        (latest_checkpoint rt.store id)

  -- `cancel`, for an execution that is not running here.
  unfoldable pub cancel_record :
      String → (reason : String) → Runtime E → Result ExecutionRecord → Result Bool × Runtime E
  unfolding publish
  cancel_record id reason rt (err e) = (err e, rt)
  cancel_record id reason rt (ok r) = (
    ok true,
    publish (save rt (record r { error = some (reason_text reason) }))
        (bare_event id "execution.cancelled" 0),
  )

  unfoldable pub cancel_stored :
      String → (reason : String) → Runtime E → Option ExecutionRecord → Result Bool × Runtime E
  unfolding transition cancel_record
  cancel_stored id reason rt none = (ok false, rt)
  cancel_stored id reason rt (some r) =
      if in_statuses r.status terminal_statuses
      then (ok false, rt)
      else cancel_record id reason rt (transition r cancelled)

  -- A running context is flagged in place.
  unfoldable pub cancel_with :
      String → (reason : String) → Runtime E → Option ExecutionContext → Result Bool × Runtime E
  unfolding cancel_stored
  cancel_with id reason rt (some c) =
      let c' = Context.cancel c in
      (ok true, emit (record rt { active = Dict.put rt.active id c' }) c' "execution.cancelled")
  cancel_with id reason rt none = cancel_stored id reason rt (get_execution rt.store id)

  unfoldable pub cancel : String → (reason : String) → Runtime E → Result Bool × Runtime E
  unfolding cancel_with
  cancel id reason rt = cancel_with id reason rt (Dict.get rt.active id)
