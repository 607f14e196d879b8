-- ===== src/Workflows/Nodes.antt =====
-- coflowai/workflows/node.py: `SequenceNode`, `RouterNode`, `LoopNode` and `TransformNode`. The
-- callables that a node is given may change the world and raise. `decimal` writes a number in
-- digits.
pub mod Sequencing
pub mod Bounds
use coflowai.Base.{
  ℕ, zero, suc, ◌+◌, String, str_append, Option, none, some, Bool, List, [], ◌∷◌, ◌++◌, Value,
  str_eq, if◌then◌else◌,
}
use coflowai.Base.Dict
use coflowai.Base.Dict.{Dict}
use coflowai.Core.Types.{completed}
use coflowai.Core.Errors.{ErrorClass, Error, plain, Result, ok, err}
use coflowai.Core.Result.{ExecutionResult}
use coflowai.Core.Context.{ExecutionContext, child, share}
use coflowai.Policies.Permissions.{Text}
use coflowai.Runtime.Drive.{returned, approval, raised}
use coflowai.Workflows.Executable.{
  Services, Ended, Execute, Leaf, Executable, adopt, alive_then, follow,
}

abbrev workflow_error : Error
workflow_error = plain ErrorClass.workflow_error

-- `ExecutionResult(execution_id=..., output=...)`, whose status is completed by default.
abbrev pub result_of : ExecutionContext → Value → ExecutionResult
result_of c output = record {
  execution_id = c.execution_id;
  status = completed;
  output = output;
  error = none;
  checkpoint_id = none;
}

abbrev pub put_output : ExecutionResult → Value → ExecutionResult
put_output r v = record r { output = v }

-- A dict updated by another, `merged.update(d)`.
abbrev pub update : Dict Bool → Dict Bool → Dict Bool
update merged [] = merged
update merged ((k, v) ∷ d) = update (Dict.put merged k v) d

abbrev pub own_leaf : Dict Bool → List Leaf
own_leaf requirements = record { model = none; model_requirements = requirements } ∷ []

module _ {W : Type 0} where
  -- The permissions, requirements and leaves of a node with parts. The permissions are a sorted set
  -- in the program, and a list with repetitions here.
  unfoldable pub all_permissions : List (Executable W) → List (Option Text)
  all_permissions [] = []
  all_permissions (x ∷ xs) = x.required_permissions ++ all_permissions xs

  unfoldable pub all_requirements : Dict Bool → List (Executable W) → Dict Bool
  all_requirements merged [] = merged
  all_requirements merged (x ∷ xs) = all_requirements (update merged x.model_requirements) xs

  unfoldable pub all_leaves : List (Executable W) → List Leaf
  all_leaves [] = []
  all_leaves (x ∷ xs) = x.leaves ++ all_leaves xs

  -- `_leaves` of a node with the parts: the node itself where it has none.
  abbrev pub leaves_or_own : List (Executable W) → List Leaf
  unfolding all_leaves
  leaves_or_own [] = own_leaf []
  leaves_or_own (x ∷ xs) = all_leaves (x ∷ xs)

module _ {W : Type 0} (services : Services W) where
  -- The loop of `SequenceNode.execute`; `result` is that of the step before.
  unfoldable pub run_steps : List (Executable W) → Value → ExecutionResult → Execute W
  unfolding follow alive_then child
  run_steps [] current result c w = (returned (put_output result current), c, w)
  run_steps (s ∷ steps) current result c w =
      alive_then services
        (λ c w.
          follow (λ r. run_steps steps r.output r) c
            (s.execute (child c (some current) (some s.name) none none) w))
        c w

  unfoldable pub sequence : (name : String) → List (Executable W) → Executable W
  unfolding run_steps all_permissions all_requirements all_leaves
  sequence name steps = record {
    name = name;
    required_permissions = all_permissions steps;
    model_requirements = all_requirements [] steps;
    leaves = leaves_or_own steps;
    execute = λ c w. run_steps steps c.input (result_of c c.input) c w;
  }

  -- `bool(until(current, context))`, and what follows it.
  unfoldable pub until_with : (stop go_on : Execute W) → Result Bool → Execute W
  until_with stop go_on (err e) c w = (raised e, c, w)
  until_with stop go_on (ok done) c w = if done then stop c w else go_on c w

  unfoldable pub until_then :
      Option (Value → ExecutionContext → W → Result Bool × W)
      → (stop go_on : Execute W) → Value
      → Execute W
  unfolding until_with
  until_then none stop go_on current c w = go_on c w
  until_then (some until) stop go_on current c w =
      let (done, w') = until current c w in until_with stop go_on done c w'

  module _ (decimal : ℕ → String) (name : String) (body : Executable W)
      (until : Option (Value → ExecutionContext → W → Result Bool × W)) where
    -- The loop of `LoopNode.execute`, with the rounds that are left and the number of the next.
    unfoldable pub run_rounds : (left : ℕ) → (iteration : ℕ) → Value → ExecutionResult → Execute W
    unfolding follow alive_then child until_then
    run_rounds zero iteration current result c w = (returned (put_output result current), c, w)
    run_rounds (suc left) iteration current result c w =
        let node_id = str_append name (str_append "#" (decimal iteration)) in
        alive_then services
          (λ c w.
            follow
              (λ r.
                until_then until (λ c w. (returned r, c, w))
                  (run_rounds left (iteration + 1) r.output r) r.output)
              c (body.execute (child c (some current) (some node_id) none none) w))
          c w

    -- The constructor, with its check of `max_iterations`.
    unfoldable pub loop : (max_iterations : ℕ) → Result (Executable W)
    unfolding run_rounds
    loop zero = err workflow_error
    loop (suc n) = ok (record {
      name = name;
      required_permissions = body.required_permissions;
      model_requirements = body.model_requirements;
      leaves = body.leaves;
      execute = λ c w. run_rounds (suc n) 1 c.input (result_of c c.input) c w;
    })

  -- The targets of a router, with the default last.
  abbrev pub targets : Dict (Executable W) → Option (Executable W) → List (Executable W)
  targets routes none = Dict.values routes
  targets routes (some d) = Dict.values routes ++ d ∷ []

  -- `_leaves` looks at the routes first: without any, the router is its own leaf.
  abbrev pub route_leaves : Dict (Executable W) → Option (Executable W) → List Leaf
  unfolding all_leaves all_requirements
  route_leaves [] default = own_leaf (all_requirements [] (targets [] default))
  route_leaves (r ∷ routes) default = all_leaves (targets (r ∷ routes) default)

  abbrev pub or_default_text : String → String
  or_default_text key = if str_eq key "" then "default" else key

  -- `self.routes.get(key, self.default)`
  abbrev pub route_target : Option (Executable W) → Option (Executable W) → Option (Executable W)
  route_target none default = default
  route_target (some t) default = some t

  -- `merge_from`, with no test of the status.
  unfoldable pub merged : ExecutionContext → Ended W → Ended W
  merged c (returned r, k, w) = (returned r, adopt c k, w)
  merged c (approval id node_id, k, w) = (approval id node_id, share c k, w)
  merged c (raised e, k, w) = (raised e, share c k, w)

  unfoldable pub take_route : (name key : String) → Option (Executable W) → Execute W
  unfolding merged child
  take_route name key none c w = (raised workflow_error, c, w)
  take_route name key (some target) c w =
      let node_id = str_append name (str_append "." (or_default_text key)) in
      merged c (target.execute (child c none (some node_id) none none) w)

  -- `condition` decides on the key, as the stripped text.
  unfoldable pub decided :
      (name : String)
      → Dict (Executable W)
      → Option (Executable W)
      → Result String × ExecutionContext × W
      → Ended W
  unfolding take_route
  decided name routes default (err e, c, w) = (raised e, c, w)
  decided name routes default (ok key, c, w) =
      take_route name key (route_target (Dict.get routes key) default) c w

  unfoldable pub router :
      (condition : ExecutionContext → W → Result String × ExecutionContext × W)
      → Dict (Executable W)
      → (name : String) → (default : Option (Executable W)) → Executable W
  unfolding decided alive_then all_permissions all_requirements all_leaves
  router condition routes name default = record {
    name = name;
    required_permissions = all_permissions (targets routes default);
    model_requirements = all_requirements [] (targets routes default);
    leaves = route_leaves routes default;
    execute = alive_then services (λ c w. decided name routes default (condition c w));
  }

  abbrev pub transformed : Result Value × ExecutionContext × W → Ended W
  transformed (err e, c, w) = (raised e, c, w)
  transformed (ok v, c, w) = (returned (result_of c v), c, w)

  unfoldable pub transform :
      (func : ExecutionContext → W → Result Value × ExecutionContext × W)
      → (name : String) → Executable W
  unfolding alive_then
  transform func name = record {
    name = name;
    required_permissions = [];
    model_requirements = [];
    leaves = record { model = none; model_requirements = [] } ∷ [];
    execute = alive_then services (λ c w. transformed (func c w));
  }
