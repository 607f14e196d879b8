-- ===== src/Runtime/Drive/Settling.antt =====
-- How `_drive` of coflowai/runtime/runtime.py ends an execution: the status that is stored.
use coflowai.Base.{
  ◌≡◌, refl, ap, sym, ◌∙◌, subst, String, Option, none, some, Bool, true, false, not, arith,
}
use coflowai.Base.Dict
use coflowai.Base.Dict.{get-put_self}
use coflowai.Core.Types.{
  ExecutionStatus, created, running, waiting_for_approval, is_status, in_statuses,
  resumable_statuses, valid_transitions,
}
use coflowai.Core.Errors.{ErrorClass, Error, plain, wrapping, python, Result, ok, is_cancelled}
use coflowai.Core.Result.{ExecutionResult}
use coflowai.Core.Context.{ExecutionContext}
use coflowai.State.Checkpoint.{Checkpoint, ExecutionRecord, repr, touch}
use coflowai.State.Store.{save_execution, get_execution, save_checkpoint}
use coflowai.Runtime.Runtime.{
  Runtime, status_of_class, status_for, final_status, transition, publish, save, create_checkpoint,
  complete_with, complete, pause_with, pause_for_approval, fail_with, fail, failure_reason,
}
use coflowai.Runtime.Drive.{
  Outcome, returned, approval, raised, settle, settle_completed, settle_raised,
}

-- A running record can be given every status but `created`.
pub transition-running :
    (r : ExecutionRecord) (s : ExecutionStatus)
    → r.status ≡ running
    → is_status s created ≡ false
    → transition r s ≡ ok (record r { status = s })
unfolding transition valid_transitions touch
transition-running r created e n = cc
transition-running r _ e n = ground arith

status_for_class : (c : ErrorClass) → is_status (status_of_class c) created ≡ false
status_for_class ErrorClass.execution_timeout = refl
status_for_class _ = refl

status_for_fresh : (e : Error) → is_status (status_for e) created ≡ false
unfolding status_for
status_for_fresh (plain c) = status_for_class c
status_for_fresh (wrapping c e) = status_for_class c
status_for_fresh (python p) = refl

final_status_fresh : (r : ExecutionResult) → is_status (final_status r) created ≡ false
unfolding final_status
final_status_fresh r = ground arith

module _ {E : Type 0} where
  -- What the store has for the execution.
  abbrev pub stored_status : Runtime E → String → Option ExecutionStatus
  stored_status rt id = elim (get_execution rt.store id) [ none ↦ none | some r ↦ some r.status ]

  executions-create_checkpoint :
      (c : ExecutionContext) (n : Option String) (reason id : String) (rt : Runtime E)
      → (create_checkpoint c n reason id rt).1.store.executions ≡ rt.store.executions
  unfolding create_checkpoint publish save_checkpoint
  executions-create_checkpoint c n reason id rt = ground arith

  -- A record that is saved last is the one that is found, whatever checkpoints and events follow.
  found-save :
      (rt after : Runtime E) (r : ExecutionRecord)
      → after.store.executions ≡ (save rt r).store.executions
      → get_execution after.store r.execution_id ≡ some r
  unfolding save_execution get_execution
  found-save rt after r e =
      ap (λ (d : Dict.Dict ExecutionRecord). Dict.get d r.execution_id) e
      ∙ get-put_self rt.store.executions r.execution_id r

  complete_with-found :
      (r : ExecutionRecord) (c : ExecutionContext) (result : ExecutionResult) (id : String)
      (rt : Runtime E)
      → get_execution (complete_with c result id rt (ok r)).1.store r.execution_id
        ≡ some (record r { output = result.output })
  unfolding complete_with publish
  complete_with-found r c result id rt =
      found-save rt (complete_with c result id rt (ok r)).1 (record r { output = result.output })
        (executions-create_checkpoint (record c { status = final_status result }) none "final" id
          (save rt (record r { output = result.output })))

  fail_with-found :
      (r : ExecutionRecord) (c : ExecutionContext) (e : Error) (rt : Runtime E)
      → get_execution (fail_with c e rt (ok r)).1.store r.execution_id
        ≡ some (record r { error = some (repr e) })
  unfolding fail_with publish
  fail_with-found r c e rt =
      found-save rt (fail_with c e rt (ok r)).1 (record r { error = some (repr e) }) refl

  pause_with-found :
      (r : ExecutionRecord) (c : ExecutionContext) (k : Option Checkpoint) (rt : Runtime E)
      → get_execution (pause_with c k rt (ok r)).1.store r.execution_id ≡ some r
  unfolding pause_with publish
  pause_with-found r c k rt = found-save rt (pause_with c k rt (ok r)).1 r refl

-- Every status from which `resume` is allowed, `created` among them, may become `running`.
pub transition-resumable :
    (r : ExecutionRecord)
    → in_statuses r.status resumable_statuses ≡ true
    → transition r running ≡ ok (record r { status = running })
unfolding transition valid_transitions touch
transition-resumable r h = ground arith

-- What the outcome of an execution makes of its running record.
abbrev pub concluded : ExecutionRecord → Outcome → ExecutionRecord
concluded r (returned result) = record r { status = final_status result; output = result.output }
concluded r (approval approval_id node_id) = record r { status = waiting_for_approval }
concluded r (raised e) = record r { status = status_for e; error = some (repr e) }

abbrev pub not_cancelled : Outcome → Bool
not_cancelled (raised e) = not (is_cancelled e)
not_cancelled _ = true

module _ {E : Type 0} (r : ExecutionRecord) (c : ExecutionContext) (id : String) (rt : Runtime E)
    (is_running : r.status ≡ running) where
  fail-found :
      (e : Error)
      → get_execution (fail r c e id rt).1.store r.execution_id
        ≡ some (record r { status = status_for e; error = some (repr e) })
  unfolding fail
  fail-found e =
      let c' = record c { status = status_for e } in
      let marked = (create_checkpoint c' none (failure_reason (status_for e)) id rt).1 in
      ap
        (λ (t : Result ExecutionRecord).
          get_execution (fail_with c' e marked t).1.store r.execution_id)
        (transition-running r (status_for e) is_running (status_for_fresh e))
      ∙ fail_with-found (record r { status = status_for e }) c' e marked

  pause-found :
      (node_id : Option String)
      → get_execution (pause_for_approval r c node_id id rt).1.store r.execution_id
        ≡ some (record r { status = waiting_for_approval })
  unfolding pause_for_approval
  pause-found node_id =
      let c' = record c { status = waiting_for_approval } in
      let (k, marked) = create_checkpoint c' node_id "approval" id rt in
      ap
        (λ (t : Result ExecutionRecord).
          get_execution (pause_with c' k marked t).1.store r.execution_id)
        (transition-running r waiting_for_approval is_running refl)
      ∙ pause_with-found (record r { status = waiting_for_approval }) c' k marked

  complete-eq :
      (result : ExecutionResult)
      → complete r c result id rt
        ≡ complete_with c result id rt (ok (record r { status = final_status result }))
  unfolding complete
  complete-eq result =
      ap (complete_with c result id rt)
        (transition-running r (final_status result) is_running (final_status_fresh result))

  pub settle-found :
      (o : Outcome)
      → not_cancelled o ≡ true
      → get_execution (settle r c o id rt).1.store r.execution_id ≡ some (concluded r o)
  unfolding settle
  settle-found (returned result) n =
      let whole = complete-eq result in
      subst
        (λ (t : Result ExecutionResult × Runtime E).
          get_execution (settle_completed r c id t).1.store r.execution_id
          ≡ some (record r { status = final_status result; output = result.output }))
        (sym whole)
        (unfold complete_with settle_completed in
          complete_with-found (record r { status = final_status result }) c result id rt)
  settle-found (approval approval_id node_id) n = pause-found node_id
  settle-found (raised e) n =
      let alive : is_cancelled e ≡ false = ground arith in
      unfold settle_raised in rw alive (fail-found e)
