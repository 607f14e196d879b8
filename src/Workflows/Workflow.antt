-- ===== src/Workflows/Workflow.antt =====
-- coflowai/workflows/workflow.py: `Workflow.execute`. The ledger of completed nodes is in the state
-- of the context, under the name of the workflow; it is read from there at each use, which is the
-- program's `completed`, one object that the state holds. The hash of a graph is a text; the
-- compilation is an argument.
pub mod Ledger
pub mod Resuming
use coflowai.Base.{
  String, Option, none, some, Bool, false, not, ◌&&◌, List, [], ◌∷◌, Value, str_eq, if◌then◌else◌,
}
use coflowai.Base.Dict
use coflowai.Base.Dict.{Dict}
use coflowai.Core.Types.{completed}
use coflowai.Core.Errors.{ErrorClass, plain, Result, ok, err, is_cancelled}
use coflowai.Core.Result.{ExecutionResult, succeeded}
use coflowai.Core.Context.{ExecutionContext, child, share}
use coflowai.State.Checkpoint.{ExecutionState}
use coflowai.Runtime.Drive.{returned, approval, raised}
use coflowai.Workflows.Executable.{Services, Ended, Execute, Executable, adopt, alive_then}
use coflowai.Workflows.Nodes.{result_of}

-- A node of a compiled graph; its kind is for reports.
pub record Node (W : Type 0) : Type 0 where
  pub id : String
  pub name : String
  pub executable : Executable W

pub record Graph (W : Type 0) : Type 0 where
  pub nodes : List (Node W)
  pub hash : String

abbrev pub or_empty : Option (Dict Value) → Dict Value
or_empty none = []
or_empty (some d) = d

-- `context.state.setdefault(completed_key, {})`
abbrev pub ledger_of : ExecutionState → String → Dict Value
ledger_of state name = or_empty (Dict.get state.completed name)

abbrev pub ledger : ExecutionContext → String → Dict Value
ledger c name = ledger_of c.state name

-- `completed[node.id] = current` and `context.state[output_key] = current`
abbrev pub mark : ExecutionContext → (name id : String) → Value → ExecutionContext
mark c name id v = record c {
  state = record c.state {
    completed = Dict.put c.state.completed name (Dict.put (ledger c name) id v);
    last_output = Dict.put c.state.last_output name v;
  };
}

module _ {W : Type 0} (services : Services W) where
  -- `_checkpoint`
  unfoldable pub checkpoint : ExecutionContext → (node_id reason : String) → W → W
  checkpoint c node_id reason w =
      if c.policy.checkpoint_enabled then services.create_checkpoint c node_id reason w else w

  module _ (name : String) where
    -- What follows the call of a node; `next` goes on with the output and the result.
    unfoldable pub node_done :
        (id : String)
        → (next : Value → ExecutionResult → Execute W) → ExecutionContext
        → Ended W
        → Ended W
    unfolding checkpoint
    node_done id next c (returned r, k, w) =
        let c' = adopt c k in
        let marked = mark c' name id r.output in
        if succeeded r
        then next r.output r marked
            (checkpoint marked id "after_node" (services.emit marked "workflow.node.completed" w))
        else (returned r, c', w)
    node_done id next c (approval approval_id node_id, k, w) = (
      approval approval_id node_id,
      adopt c k,
      services.emit (adopt c k) "workflow.node.failed" w,
    )
    node_done id next c (raised e, k, w) =
        if is_cancelled e
        then (raised e, share c k, w)
        else (raised e, adopt c k, services.emit (adopt c k) "workflow.node.failed" w)

    -- One turn of the loop, by what the ledger has for the node.
    unfoldable pub visit :
        Node W
        → (next : Value → ExecutionResult → Execute W) → (current : Value)
        → (result : ExecutionResult) → Option Value
        → Execute W
    unfolding node_done child
    visit n next current result (some v) c w =
        next v result c (services.emit c "workflow.node.skipped" w)
    visit n next current result none c w =
        let started = services.emit c "workflow.node.started" (checkpoint c n.id "before_node" w) in
        node_done n.id next c
          (n.executable.execute (child c (some current) (some n.id) none none) started)

    -- `run_nodes`
    unfoldable pub run_nodes :
        List (Node W) → (current : Value) → (result : ExecutionResult) → Execute W
    unfolding visit alive_then
    run_nodes [] current result c w =
        (returned (record result { output = current; status = completed }), c, w)
    run_nodes (n ∷ ns) current result c w =
        alive_then services
          (λ c w. visit n (run_nodes ns) current result (Dict.get (ledger c name) n.id) c w) c w

    -- `recorded and recorded != graph.hash`
    abbrev pub incompatible : Option String → String → Bool
    incompatible none hash = false
    incompatible (some recorded) hash = not (str_eq recorded "") && not (str_eq recorded hash)

    abbrev pub root_or : Option String → String → Option String
    root_or none hash = some hash
    root_or (some h) hash = some h

    abbrev pub value_or : Option Value → Value → Value
    value_or none v = v
    value_or (some u) v = u

    -- Where the run begins: the last output, if a node is completed, and else the input.
    abbrev pub first_input : Dict Value → ExecutionContext → Value
    first_input [] c = c.input
    first_input (p ∷ d) c = value_or (Dict.get c.state.last_output name) c.input

    -- The state with the hash and the ledger of this workflow.
    abbrev pub opened : ExecutionContext → (hash : String) → ExecutionContext
    opened c hash = record c {
      state = record c.state {
        hashes = Dict.put c.state.hashes name hash;
        root_hash = root_or c.state.root_hash hash;
        completed = Dict.put c.state.completed name (ledger c name);
      };
    }

    -- The event at the end, which an exception passes by.
    unfoldable pub announce : Ended W → Ended W
    announce (returned r, c, w) = (returned r, c, services.emit c "workflow.completed" w)
    announce (approval id node_id, c, w) = (approval id node_id, c, w)
    announce (raised e, c, w) = (raised e, c, w)

    unfoldable pub run_graph : Graph W → Execute W
    unfolding run_nodes announce
    run_graph g c w =
        let c' = opened c g.hash in
        let current = first_input (ledger c' name) c' in
        announce (
          run_nodes g.nodes current (result_of c' current) c'
            (services.emit c' "workflow.started" w))

    -- `execute`, by the outcome of the compilation.
    unfoldable pub execute : Result (Graph W) → Execute W
    unfolding run_graph
    execute (err e) c w = (raised e, c, w)
    execute (ok g) c w =
        if incompatible (Dict.get c.state.hashes name) g.hash
        then (raised (plain ErrorClass.checkpoint_error), c, w)
        else run_graph g c w
