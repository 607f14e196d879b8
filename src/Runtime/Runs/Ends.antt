-- ===== src/Runtime/Runs/Ends.antt =====
-- What `run` and `resume` of coflowai/runtime/runtime.py leave when they reach the executable, and
-- why they do not.
use coflowai.Base.{
  ℕ, ◌≡◌, refl, ap, sym, ◌∙◌, subst, String, Option, none, some, true, false, List, contains, not,
  Value, Bool-cases, inl, inr, if◌then◌else◌,
}
use coflowai.Base.Dict
use coflowai.Base.Dict.{Dict}
use coflowai.Core.Types.{running, in_statuses, resumable_statuses}
use coflowai.Core.Errors.{ErrorClass, PythonClass, plain, python, Error, Result, ok, err}
use coflowai.Core.Context.{ExecutionContext}
use coflowai.Policies.Permissions.{Text}
use coflowai.Policies.Policy.{ExecutionPolicy, PolicyDict, to_dict, of_dict}
use coflowai.Policies.Policy.Limits.{reload_fails}
use coflowai.State.Checkpoint.{ExecutionState, Checkpoint, ExecutionRecord}
use coflowai.State.Store.{Store, save_execution, get_execution, acquire_lock, latest_checkpoint}
use coflowai.State.Store.Laws.{acquire_lock_lem}
use coflowai.Runtime.Runtime.{Runtime, emit, save, publish}
use coflowai.Runtime.Drive.{Outcome, hash_differs, drive}
use coflowai.Runtime.Drive.Settling.{concluded, not_cancelled}
use coflowai.Runtime.Drive.Locks.{outcome, drive_lem}
use coflowai.Runtime.Control.{require_record}
use coflowai.Runtime.Runs.{
  or_default, restored, new_record, new_context, run_with, run, resume_from, resume_target,
  resume_record, known_target, resume,
}

-- An execution has ended: it is not among the running ones, its lock is free, and its record is
-- stored with its conclusion, unless its task was cancelled.
abbrev pub Ended : {E : Type 0} → (id : String) → ExecutionRecord → Outcome → Runtime E → Type 0
Ended id r o rt =
    (Dict.has rt.active id ≡ false)
    × (contains rt.store.locks id ≡ false)
    × (not_cancelled o ≡ true
        → get_execution rt.store id ≡ some (concluded (record r { status = running }) o))

-- Whether a lock is granted depends on the locks alone.
pub same_lock :
    (s t : Store) (id : String)
    → t.locks ≡ s.locks
    → (acquire_lock s id).0 ≡ true
    → (acquire_lock t id).0 ≡ true
same_lock s t id e h =
    (acquire_lock_lem t id id).0
    ∙ ap (λ (l : List String). not (contains l id)) e
    ∙ sym (acquire_lock_lem s id id).0
    ∙ h

module _ {E : Type 0} (name : E → String) (hash : E → Option String)
    (execute : E → ExecutionContext → Runtime E → Outcome × ExecutionContext × Runtime E)
    (target : E) (input : Value) (policy : Option ExecutionPolicy)
    (permissions : Option (List Text)) (id : String) (metadata : Dict Value)
    (state : ExecutionState) (now : ℕ) (ckpt : String) (rt : Runtime E) where
  -- The context that `run` makes, and the runtime that has recorded the new execution.
  abbrev pub run_context : ExecutionContext
  run_context =
      new_context name hash execute input (or_default policy rt.default_policy)
        (or_default permissions rt.permissions) id metadata state now

  abbrev pub run_record : PolicyDict → ExecutionRecord
  run_record d = new_record name hash execute target input d id metadata

  abbrev pub created_runtime : PolicyDict → Runtime E
  created_runtime d = emit (save rt (run_record d)) run_context "execution.created"

  -- Where the policy can be written out and nobody holds the lock of the new id, `run` runs the
  -- executable to an end: however that ends, the lock of the id is free, the execution is not
  -- among the running ones, and, unless its task was cancelled, the record that is stored under
  -- the id has the status and the output or error of that end.
  pub run_lem :
      (d : PolicyDict)
      → to_dict (or_default policy rt.default_policy) ≡ ok d
      → (acquire_lock rt.store id).0 ≡ true
      → Ended id
          (run_record d)
          (outcome execute target run_context (run_record d) ckpt (created_runtime d))
          (run name hash execute target input policy permissions id metadata state now ckpt rt).1
  unfolding run run_with new_context new_record publish save_execution
  run_lem d written free =
      subst
        (λ (t : Result PolicyDict).
          Ended id (run_record d)
            (outcome execute target run_context (run_record d) ckpt (created_runtime d))
            (run_with name hash execute target run_context ckpt rt t).1)
        (sym written)
        (drive_lem execute target run_context (run_record d) ckpt (created_runtime d)
          (same_lock rt.store (created_runtime d).store id refl free) refl)

  -- `run` raises at once, and leaves the runtime as it was, on a policy that was written out and
  -- read back, as the worker does with the policy of a job.
  pub run-reloaded :
      (p q : ExecutionPolicy) (d : PolicyDict)
      → to_dict p ≡ ok d
      → of_dict d ≡ ok q
      → run name hash execute target input (some q) permissions id metadata state now ckpt rt
        ≡ (err (python PythonClass.attribute_error), rt)
  unfolding run run_with
  run-reloaded p q d h k = rw ((reload_fails p q d h k).1, run_with) refl

-- The executable that `resume` takes: the one passed, or the one that the runtime knows.
module _ {E : Type 0} (name : E → String) (hash : E → Option String)
    (execute : E → ExecutionContext → Runtime E → Outcome × ExecutionContext × Runtime E)
    (id : String) (executable : Option E) (policy : Option ExecutionPolicy) (now : ℕ)
    (ckpt : String) (rt : Runtime E) where
  abbrev pub resume_policy : ExecutionPolicy
  resume_policy = or_default policy (or_default (Dict.get rt.policies id) rt.default_policy)

  abbrev pub resumed_context : Checkpoint → ExecutionRecord → ExecutionContext
  resumed_context k r = restored id k r resume_policy rt.permissions now

  abbrev pub resumed_runtime : Checkpoint → ExecutionRecord → Runtime E
  resumed_runtime k r =
      emit (emit rt (resumed_context k r) "checkpoint.restored") (resumed_context k r)
        "execution.resumed"

  resume-eq :
      (r : ExecutionRecord) (k : Checkpoint) (target : E)
      → get_execution rt.store id ≡ some r
      → in_statuses r.status resumable_statuses ≡ true
      → known_target name hash execute executable id rt ≡ some target
      → latest_checkpoint rt.store id ≡ some k
      → hash_differs k.workflow_hash (hash target) ≡ false
      → resume name hash execute id executable policy now ckpt rt
        ≡ drive execute target (resumed_context k r) r ckpt (resumed_runtime k r)
  unfolding resume resume_record resume_target resume_from require_record
  resume-eq r k target found resumable known latest same =
      rw (found, resume_record)
        (rw (resumable, if◌then◌else◌)
          (rw (known, resume_target) (rw (latest, resume_from) (rw (same, if◌then◌else◌) refl))))

  -- Where the execution is stored and resumable, its executable is known, a checkpoint is there
  -- whose workflow hash does not differ, and nobody holds the lock, `resume` runs the executable
  -- to an end from the restored context: its lock is free then, the execution is not among the
  -- running ones, and, unless its task was cancelled, the stored record has the status and the
  -- output or error of that end.
  pub resume_lem :
      (r : ExecutionRecord) (k : Checkpoint) (target : E)
      → get_execution rt.store id ≡ some r
      → r.execution_id ≡ id
      → in_statuses r.status resumable_statuses ≡ true
      → known_target name hash execute executable id rt ≡ some target
      → latest_checkpoint rt.store id ≡ some k
      → hash_differs k.workflow_hash (hash target) ≡ false
      → (acquire_lock rt.store id).0 ≡ true
      → Ended id r
          (outcome execute target (resumed_context k r) r ckpt (resumed_runtime k r))
          (resume name hash execute id executable policy now ckpt rt).1
  unfolding restored publish
  resume_lem r k target found own resumable known latest same free =
      let ended =
        drive_lem execute target (resumed_context k r) r ckpt (resumed_runtime k r)
          (same_lock rt.store (resumed_runtime k r).store id refl free) resumable in
      rw (resume-eq r k target found resumable known latest same) (
        ended.0,
        ended.1,
        λ n.
            ap
              (get_execution
                (drive execute target (resumed_context k r) r ckpt (resumed_runtime k r)).1.store)
              (sym own)
            ∙ ended.2 n,
      )

  -- Why `resume` raises before it touches anything.
  pub data Refusal : Error → Type 0 where
    missing : get_execution rt.store id ≡ none → Refusal (plain ErrorClass.execution_error)
    not_resumable :
        (r : ExecutionRecord)
        → get_execution rt.store id ≡ some r
        → in_statuses r.status resumable_statuses ≡ false
        → Refusal (plain ErrorClass.execution_error)
    unknown :
        (r : ExecutionRecord)
        → get_execution rt.store id ≡ some r
        → known_target name hash execute executable id rt ≡ none
        → Refusal (plain ErrorClass.execution_error)
    no_checkpoint :
        (r : ExecutionRecord) (target : E)
        → get_execution rt.store id ≡ some r
        → in_statuses r.status resumable_statuses ≡ true
        → known_target name hash execute executable id rt ≡ some target
        → latest_checkpoint rt.store id ≡ none
        → Refusal (plain ErrorClass.checkpoint_error)
    changed :
        (r : ExecutionRecord) (target : E) (k : Checkpoint)
        → get_execution rt.store id ≡ some r
        → in_statuses r.status resumable_statuses ≡ true
        → known_target name hash execute executable id rt ≡ some target
        → latest_checkpoint rt.store id ≡ some k
        → hash_differs k.workflow_hash (hash target) ≡ true
        → Refusal (plain ErrorClass.checkpoint_error)

  -- An execution without a record, one whose status is not resumable, one whose executable is not
  -- known, one without a checkpoint and one whose workflow has changed since the checkpoint are not
  -- resumed: `resume` raises the error that belongs to the case and leaves the runtime as it was.
  pub resume_refused :
      {e : Error}
      → Refusal e
      → resume name hash execute id executable policy now ckpt rt ≡ (err e, rt)
  unfolding resume resume_record resume_target resume_from require_record
  resume_refused (missing f) = rw (f, resume_record) refl
  resume_refused (not_resumable r f s) = rw (f, resume_record) (rw (s, if◌then◌else◌) refl)
  resume_refused (unknown r f t) = elim (Bool-cases (in_statuses r.status resumable_statuses)) [
    | inl s ↦ rw (f, resume_record) (rw (s, if◌then◌else◌) (rw (t, resume_target) refl))
    | inr s ↦ rw (f, resume_record) (rw (s, if◌then◌else◌) refl)
  ]
  resume_refused (no_checkpoint r target f s t l) =
      rw (f, resume_record)
        (rw (s, if◌then◌else◌) (rw (t, resume_target) (rw (l, resume_from) refl)))
  resume_refused (changed r target k f s t l d) =
      rw (f, resume_record)
        (rw (s, if◌then◌else◌)
          (rw (t, resume_target) (rw (l, resume_from) (rw (d, if◌then◌else◌) refl))))
