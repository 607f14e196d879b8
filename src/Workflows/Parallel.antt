-- ===== src/Workflows/Parallel.antt =====
-- coflowai/workflows/node.py: `ParallelNode`. What the node makes of its branches is a function of
-- the tasks in the order of the branches, each with its outcome and its context, and of the state
-- that they share. `run_branches` is the schedule of a concurrency of 1.
pub mod Asking
pub mod Joining
use coflowai.Base.{
  String, str_append, Option, none, some, Bool, true, false, ◌&&◌, List, [], ◌∷◌, map, any, Value,
  Fields, if◌then◌else◌,
}
use coflowai.Base.Dict
use coflowai.Base.Dict.{Dict}
use coflowai.Core.Errors.{
  ErrorClass, PythonClass, Error, plain, python, Result, ok, err, is_cancelled,
}
use coflowai.Core.Result.{ExecutionResult, succeeded}
use coflowai.Core.Context.{ExecutionContext, child, absorb_parallel}
use coflowai.State.Checkpoint.{ExecutionState}
use coflowai.Runtime.Drive.{Outcome, returned, approval, raised}
use coflowai.Workflows.Executable.{Services, Executable, alive_then}
use coflowai.Workflows.Nodes.{result_of, all_permissions, all_requirements, all_leaves}

abbrev workflow_error : Error
workflow_error = plain ErrorClass.workflow_error

-- A branch whose task is done.
pub record Task : Type 0 where
  pub name : String
  pub outcome : Outcome
  pub context : ExecutionContext

-- The exception of a task.
abbrev pub exception_of : Outcome → Option Error
exception_of (returned r) = none
exception_of (approval id node_id) = some (plain ErrorClass.approval_required)
exception_of (raised e) = some e

abbrev pub is_error : Option Error → Bool
is_error none = false
is_error (some e) = if is_cancelled e then false else true

abbrev pub is_stopped : Option Error → Bool
is_stopped none = false
is_stopped (some e) = is_cancelled e

-- The task ended by an exception that is no cancellation; the task was cancelled.
abbrev pub has_raised : Task → Bool
has_raised t = is_error (exception_of t.outcome)

abbrev pub was_cancelled : Task → Bool
was_cancelled t = is_stopped (exception_of t.outcome)

-- `result.error or WorkflowError(...)`
abbrev pub error_of : ExecutionResult → Error
error_of r = elim r.error [ none ↦ workflow_error | some e ↦ e ]

-- The failures that `gather` returned as exceptions.
unfoldable pub raised_failures : List Task → Dict Error → Dict Error
raised_failures [] failures = failures
raised_failures (t ∷ ts) failures = elim (exception_of t.outcome) [
  | none ↦ raised_failures ts failures
  | some e ↦ raised_failures ts (Dict.put failures t.name e)
]

-- One turn of the loop over the pairs, on the outputs and the failures.
abbrev pub collect : String → Outcome → Dict Value × Dict Error → Dict Value × Dict Error
collect name (returned r) (outputs, failures) =
    if succeeded r
    then (Dict.put outputs name r.output, failures)
    else (outputs, Dict.put failures name (error_of r))
collect name (approval id node_id) (outputs, failures) = (outputs, failures)
collect name (raised e) (outputs, failures) = (outputs, failures)

unfoldable pub collect_all : List Task → Dict Value × Dict Error → Dict Value × Dict Error
collect_all [] pairs = pairs
collect_all (t ∷ ts) pairs = collect_all ts (collect t.name t.outcome pairs)

-- The dict of outputs as a value.
abbrev pub fields_of : Dict Value → Fields
fields_of [] = Fields.end
fields_of ((k, v) ∷ d) = Fields.field k v (fields_of d)

-- `self.merge(outputs) if self.merge else outputs`
abbrev pub merged_output : Option (Dict Value → Result Value) → Dict Value → Result Value
merged_output none outputs = ok (Value.object (fields_of outputs))
merged_output (some merge) outputs = merge outputs

abbrev pub concluded : ExecutionContext → Result Value → Outcome × ExecutionContext
concluded c (err e) = (raised e, c)
concluded c (ok v) = (returned (result_of c v), c)

module _ (merge : Option (Dict Value → Result Value)) where
  -- From `context.absorb_parallel(children, baseline)` on; `c` has the state as the tasks left it.
  unfoldable pub absorbed :
      (fail_fast : Bool)
      → ExecutionContext
      → (children : List ExecutionContext) → (baseline : ExecutionContext) → Dict Value × Dict Error
      → Outcome × ExecutionContext
  absorbed fail_fast c children baseline (outputs, []) =
      concluded (absorb_parallel c children baseline) (merged_output merge outputs)
  absorbed fail_fast c children baseline (outputs, (name, e) ∷ failures) =
      if fail_fast
      then (raised e, absorb_parallel c children baseline)
      else concluded (absorb_parallel c children baseline) (merged_output merge outputs)

  -- With `fail_fast` a task group waits for the tasks: it raises a group of their exceptions, and a
  -- cancelled task raises when its result is read. Without, `gather` returns the exceptions.
  unfoldable pub join :
      (fail_fast : Bool)
      → ExecutionContext
      → ExecutionState
      → List Task
      → Outcome × ExecutionContext
  unfolding absorbed collect_all raised_failures child
  join fail_fast c state tasks =
      let c' = record c { state = state } in
      let children = map (λ (t : Task). t.context) tasks in
      let baseline = child c none none none none in
      let grouped = absorbed true c' children baseline (collect_all tasks ([], [])) in
      let gathered =
        absorbed false c' children baseline (collect_all tasks ([], raised_failures tasks [])) in
      if fail_fast
      then if any has_raised tasks
        then (raised (python PythonClass.other_error), c')
        else if any was_cancelled tasks
        then (raised (python PythonClass.cancelled_error), c')
        else grouped
      else gathered

module _ {W : Type 0} (services : Services W) (name : String) where
  -- One branch after the other, with the state that the one before it left; under `fail_fast` the
  -- branches that wait are cancelled when one raises.
  unfoldable pub run_branches :
      (fail_fast : Bool)
      → List (Executable W)
      → ExecutionContext
      → W
      → List Task × ExecutionState × W
  unfolding child
  run_branches fail_fast [] c w = ([], c.state, w)
  run_branches fail_fast (b ∷ bs) c w =
      let node_id = str_append name (str_append "." b.name) in
      let (o, k, w') = b.execute (child c none (some node_id) none none) w in
      let task : Task = record { name = b.name; outcome = o; context = k } in
      let rest = run_branches fail_fast bs (record c { state = k.state }) w' in
      if fail_fast && has_raised task
      then (task ∷ [], k.state, w')
      else (task ∷ rest.0, rest.1, rest.2)

  -- The constructor, with its check of the branches.
  unfoldable pub parallel :
      List (Executable W)
      → Option (Dict Value → Result Value)
      → (fail_fast : Bool) → Result (Executable W)
  unfolding run_branches join alive_then all_permissions all_requirements all_leaves
  parallel [] merge fail_fast = err workflow_error
  parallel (b ∷ bs) merge fail_fast = ok (record {
    name = name;
    required_permissions = all_permissions (b ∷ bs);
    model_requirements = all_requirements [] (b ∷ bs);
    leaves = all_leaves (b ∷ bs);
    execute = alive_then services (λ c w.
        let (tasks, state, w') = run_branches fail_fast (b ∷ bs) c w in
        let (o, c') = join merge fail_fast c state tasks in (o, c', w'));
  })
