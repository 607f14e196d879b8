-- ===== src/Runtime/Control/Decisions.antt =====
-- What `_decide` of coflowai/runtime/runtime.py makes of an approval.
use coflowai.Base.{
  ◌≡◌, refl, ◌∙◌, String, Option, some, true, false, if◌then◌else◌, str_eq, eq_refl,
}
use coflowai.Base.Dict
use coflowai.Base.Dict.{get-put, get-put_self}
use coflowai.Core.Types.{waiting_for_approval, is_status}
use coflowai.Core.Errors.{ok}
use coflowai.State.Checkpoint.{ApprovalRecord, Checkpoint, ExecutionRecord}
use coflowai.State.Store.{get_execution, latest_checkpoint}
use coflowai.State.Store.Laws.{latest_checkpoint-save_checkpoint}
use coflowai.Runtime.Runtime.{Runtime, publish}
use coflowai.Runtime.Control.{
  target_of, decided, decide_checkpoint, record_decision, decide_with, decide,
}

-- The checkpoint after a decision: the entry has the decision, who made it and the remark, with the
-- same id, message and payload, and every other entry, the completed nodes and the step are those of
-- the checkpoint before.
pub record Decided (k after : Checkpoint) (target : String) (a : ApprovalRecord) (decision : String)
    (by remark : Option String) : Type 0 where
  pub entry :
      Dict.get after.state.approvals target
      ≡ some (record {
        approval_id = a.approval_id;
        message = a.message;
        status = decision;
        decided_by = by;
        note = remark;
        payload = a.payload;
      })
  pub others :
      (id : String)
      → str_eq target id ≡ false
      → Dict.get after.state.approvals id ≡ Dict.get k.state.approvals id
  pub completed : after.state.completed ≡ k.state.completed
  pub step : after.step ≡ k.step

decide_checkpoint-Decided :
    (k : Checkpoint) (target : String) (a : ApprovalRecord) (decision id : String)
    (by remark : Option String)
    → Decided k
        (decide_checkpoint k target (decided a decision by remark) decision id)
        target
        a
        decision
        by
        remark
decide_checkpoint-Decided k target a decision id by remark = record {
  entry = get-put_self k.state.approvals target (decided a decision by remark);
  others = λ i e. rw (get-put k.state.approvals target i (decided a decision by remark), e) refl;
  completed = refl;
  step = refl;
}

module _ {E : Type 0} (id : String) (decision : String) (by remark : Option String) (ckpt : String)
    (rt : Runtime E) where
  decide-eq :
      (r : ExecutionRecord) (k : Checkpoint) (target : String) (a : ApprovalRecord)
      → get_execution rt.store id ≡ some r
      → is_status r.status waiting_for_approval ≡ true
      → latest_checkpoint rt.store id ≡ some k
      → str_eq target "" ≡ false
      → Dict.get k.state.approvals target ≡ some a
      → decide id (some target) decision by remark ckpt rt
        ≡ record_decision id k target (some a) decision by remark ckpt rt
  unfolding decide decide_with target_of
  decide-eq r k target a found waits latest named entry =
      rw (found, decide_with)
        (rw (latest, decide_with)
          (rw (waits, if◌then◌else◌)
            (rw (named, if◌then◌else◌) (rw (entry, record_decision) refl))))

  -- A decision on an approval, named by an id that is not empty, that the latest checkpoint of a
  -- waiting execution has, whatever its status there, returns without an error and stores a new
  -- latest checkpoint in which that approval has the decision as its status, who decided and the
  -- remark, with its message and payload kept, and the other approvals, the completed nodes and the
  -- step are as before.
  pub decide_lem :
      (r : ExecutionRecord) (k : Checkpoint) (target : String) (a : ApprovalRecord)
      → get_execution rt.store id ≡ some r
      → is_status r.status waiting_for_approval ≡ true
      → latest_checkpoint rt.store id ≡ some k
      → k.execution_id ≡ id
      → str_eq target "" ≡ false
      → Dict.get k.state.approvals target ≡ some a
      → ((decide id (some target) decision by remark ckpt rt).0 ≡ ok tt)
        × (after : Checkpoint) × (latest_checkpoint
              (decide id (some target) decision by remark ckpt rt).1.store
              id
            ≡ some after)
        × Decided k after target a decision by remark
  decide_lem r k target a found waits latest own named entry =
      let after = decide_checkpoint k target (decided a decision by remark) decision ckpt in
      rw (decide-eq r k target a found waits latest named entry) (
        unfold record_decision publish in
        (
          refl,
          after,
          latest_checkpoint-save_checkpoint rt.store after id ∙ rw (own, eq_refl id) refl,
          decide_checkpoint-Decided k target a decision ckpt by remark,
        ))
