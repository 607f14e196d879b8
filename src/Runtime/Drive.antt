-- ===== src/Runtime/Drive.antt =====
-- coflowai/runtime/runtime.py: `_drive`, `_with_deadline`, `run` and `resume`. What an executable
-- does is an argument: from its context and the runtime it makes an outcome, the context and the
-- runtime after it.
pub mod Settling
pub mod Locks
use coflowai.Base.{ℕ, String, Option, none, some, Bool, false, not, ◌&&◌, str_eq, if◌then◌else◌}
use coflowai.Base.Dict
use coflowai.Base.Dict.{Dict}
use coflowai.Core.Types.{running}
use coflowai.Core.Errors.{
  ErrorClass, PythonClass, Error, plain, wrapping, python, Result, ok, err, is_cancelled,
}
use coflowai.Core.Result.{ExecutionResult}
use coflowai.Core.Context.{ExecutionContext}
use coflowai.State.Checkpoint.{ExecutionRecord}
use coflowai.State.Store.{acquire_lock, release_lock}
use coflowai.Runtime.Runtime.{Runtime, transition, save, emit, complete, pause_for_approval, fail}

-- How `target.execute(context)` ends: it returns, it raises `ApprovalRequired`, or it raises another
-- exception.
pub data Outcome : Type 0 where
  returned : ExecutionResult → Outcome
  approval : (approval_id : String) → (node_id : Option String) → Outcome
  raised : Error → Outcome

-- `_with_deadline`: under a timeout a `TimeoutError` becomes an `ExecutionTimeout`.
unfoldable pub with_deadline : Option ℕ → Outcome → Outcome
with_deadline none o = o
with_deadline (some t) (raised (python PythonClass.timeout_error)) =
    raised (wrapping ErrorClass.execution_timeout (python PythonClass.timeout_error))
with_deadline (some t) o = o

-- `record and current and record != current`, on optional texts of which the empty one is false.
abbrev pub hash_differs : Option String → Option String → Bool
hash_differs none b = false
hash_differs (some a) none = false
hash_differs (some a) (some b) = not (str_eq a "") && (not (str_eq b "") && not (str_eq a b))

abbrev execution_error : Error
execution_error = plain ErrorClass.execution_error

module _ {E : Type 0} where
  -- The handlers of `_drive`, on what the executable did.
  unfoldable pub settle_raised :
      ExecutionRecord
      → ExecutionContext
      → Error
      → (id : String) → Runtime E
      → Result ExecutionResult × Runtime E
  settle_raised r c e id rt = if is_cancelled e then (err e, rt) else fail r c e id rt

  -- An error of `_complete` is caught as well.
  unfoldable pub settle_completed :
      ExecutionRecord
      → ExecutionContext
      → (id : String) → Result ExecutionResult × Runtime E
      → Result ExecutionResult × Runtime E
  unfolding settle_raised
  settle_completed r c id (ok result, rt) = (ok result, rt)
  settle_completed r c id (err e, rt) = settle_raised r c e id rt

  unfoldable pub settle :
      ExecutionRecord
      → ExecutionContext
      → Outcome
      → (id : String) → Runtime E
      → Result ExecutionResult × Runtime E
  unfolding settle_completed settle_raised
  settle r c (returned result) id rt = settle_completed r c id (complete r c result id rt)
  settle r c (approval approval_id node_id) id rt = pause_for_approval r c node_id id rt
  settle r c (raised e) id rt = settle_raised r c e id rt

  -- The `finally` block.
  unfoldable pub release : String → Runtime E → Runtime E
  release id rt = record rt { active = Dict.remove rt.active id; store = release_lock rt.store id }

  -- The first statements of `_drive`, before the lock is asked for.
  unfoldable pub enlist : E → ExecutionContext → Runtime E → Runtime E
  enlist target c rt = record rt {
    executables = Dict.put rt.executables c.execution_id target;
    policies = Dict.put rt.policies c.execution_id c.policy;
    active = Dict.put rt.active c.execution_id c;
  }

  module _
      (execute : E → ExecutionContext → Runtime E → Outcome × ExecutionContext × Runtime E) where
    -- From the `try` on.
    unfoldable pub perform :
        E
        → ExecutionContext
        → ExecutionRecord
        → (id : String) → Runtime E
        → Result ExecutionResult × Runtime E
    unfolding settle release with_deadline
    perform target c r id rt =
        let (outcome, c', after) = execute target c rt in
        let (result, settled) =
          settle r c' (with_deadline c.policy.timeout_seconds outcome) id after in
        (result, release c.execution_id settled)

    -- `id` names the checkpoint that the end of the execution makes.
    -- The start, by the outcome of the transition.
    unfoldable pub start_with :
        E
        → ExecutionContext
        → (id : String) → Runtime E
        → Result ExecutionRecord
        → Result ExecutionResult × Runtime E
    unfolding perform
    start_with target c id rt (err e) = (err e, rt)
    start_with target c id rt (ok r) =
        let c' = record c { status = running } in
        perform target c' r id (emit (save rt r) c' "execution.started")

    unfoldable pub start :
        E
        → ExecutionContext
        → ExecutionRecord
        → (id : String) → Runtime E
        → Result ExecutionResult × Runtime E
    unfolding transition start_with
    start target c r id rt = start_with target c id rt (transition r running)

    unfoldable pub drive :
        E
        → ExecutionContext
        → ExecutionRecord
        → (id : String) → Runtime E
        → Result ExecutionResult × Runtime E
    unfolding enlist start
    drive target c r id rt =
        let listed = enlist target c rt in
        let (granted, store') = acquire_lock listed.store c.execution_id in
        if granted
        then start target c r id (record listed { store = store' })
        else (err execution_error, record listed { store = store' })
