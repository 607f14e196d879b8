-- ===== src/Tests/Workflows.antt =====
-- The theorems about coflowai/workflows/ at concrete inputs. The world is a count of executions.
use coflowai.Base.{
  ◌+◌, ◌≤◌, ℕ, suc, ◌≡◌, ◌↔◌, refl, String, none, some, Bool, true, false, List, [], ◌∷◌, arith,
  Value, All,
}
use coflowai.Core.Errors.{ErrorClass, plain, Result, ok, err}
use coflowai.Core.Context.{ExecutionContext, ensure_alive}
use coflowai.Runtime.Drive.{returned, approval, raised}
use coflowai.Workflows.Executable.{Services, Executable}
use coflowai.Workflows.Nodes.{result_of, loop}
use coflowai.Workflows.Nodes.Bounds.{loop-le}
use coflowai.Workflows.Parallel.{parallel}
use coflowai.Workflows.Workflow.{Node, run_nodes}
use coflowai.Workflows.Workflow.Ledger.{Progress, run_nodes-Progress}
use coflowai.Workflows.Compiler.{Edge, validate_reachability, validate_acyclic, linear_edges}
use coflowai.Workflows.Compiler.Cycles.{Decides, validate_acyclic-Decides}
use coflowai.Workflows.Compiler.Compile.{ExecutionGraph, compile}
use coflowai.Workflows.Compiler.Compile.Soundness.{Accepts, IsValid, compile-Accepts}
use coflowai.Models.Registry.{ModelRegistry}
use coflowai.Workflows.Compiler.Search.{Reachable}
use coflowai.Workflows.Compiler.Reachability.{validate_reachability_iff}
use coflowai.Tests.Data.{context, result}

abbrev services : Services ℕ
services = record { now = λ w. 20; emit = λ c type w. w; create_checkpoint = λ c id reason w. w }

-- Returns its input and counts.
abbrev counting : Executable ℕ
counting = record {
  name = "counting";
  required_permissions = [];
  model_requirements = [];
  leaves = [];
  execute = λ c w. (returned (result_of c c.input), c, suc w);
}

-- Raises at once.
abbrev failing : Executable ℕ
failing = record {
  name = "failing";
  required_permissions = [];
  model_requirements = [];
  leaves = [];
  execute = λ c w. (raised (plain ErrorClass.tool_error), c, w);
}

abbrev digits : ℕ → String
digits n = "1"

abbrev never : Value → ExecutionContext → ℕ → Result Bool × ℕ
never v c w = (ok false, w)

abbrev identity : ℕ → ℕ
identity n = n

abbrev node_of : Result (Executable ℕ) → Executable ℕ
node_of (ok x) = x
node_of (err e) = failing

loop-le_example :
    identity ((node_of (loop services digits "loop" counting (some never) 3)).execute context 0).2
    ≤ identity 0 + 3
unfolding loop
loop-le_example =
    loop-le services identity digits "loop" counting (some never) (λ c w. omega arith)
      (λ v c w. refl) 3 (node_of (loop services digits "loop" counting (some never) 3)) refl context
      0

-- Asks for an approval.
abbrev asking : Executable ℕ
asking = record failing { name = "asking"; execute = λ c w. (approval "gate" none, c, w) }

abbrev two_branches : Executable ℕ
unfolding parallel
two_branches = node_of (parallel services "both" (counting ∷ asking ∷ []) none true)

abbrev nodes : List (Node ℕ)
nodes =
    record { id = "a"; name = "a"; executable = counting }
    ∷ record { id = "b"; name = "b"; executable = failing }
    ∷ []

run_nodes-Progress_example :
    Progress services "flow" nodes context
      (run_nodes services "flow" nodes (Value.text "in") result context 0)
unfolding ensure_alive
run_nodes-Progress_example =
    run_nodes-Progress services "flow" nodes (Value.text "in") result context 0
      (λ c w. refl, (λ c w. refl, tt)) (λ w. refl)

-- The execution that goes on from where the first one stopped.
abbrev resumed : ExecutionContext
resumed = record context {
  state = (run_nodes services "flow" nodes (Value.text "in") result context 0).1.state;
}

abbrev edges : List Edge
edges =
    record { source = "a"; target = "b" }
    ∷ record { source = "b"; target = "c" }
    ∷ record { source = "c"; target = "a" }
    ∷ []

validate_reachability_iff_example :
    (verdict : Result (Unit {0})) × (validate_reachability ("a" ∷ "b" ∷ "c" ∷ []) edges
      ≡ some verdict)
    × ((verdict ≡ ok tt) ↔ All (Reachable edges "a") ("a" ∷ "b" ∷ "c" ∷ []))
validate_reachability_iff_example = validate_reachability_iff "a" ("b" ∷ "c" ∷ []) edges

validate_acyclic-Decides_example : Decides edges (validate_acyclic edges)
validate_acyclic-Decides_example = validate_acyclic-Decides edges

abbrev no_models : ModelRegistry (Unit {0})
no_models = record { models = []; default_name = none }

abbrev a_to_b : List Edge
a_to_b = record { source = "a"; target = "b" } ∷ []

-- The graph that comes of the two nodes.
abbrev a_then_b : ExecutionGraph ℕ
a_then_b = record { name = "flow"; version = "1"; nodes = nodes; edges = a_to_b; metadata = [] }

compile-Accepts_example :
    Accepts a_then_b
      (IsValid (some no_models) none true nodes a_to_b)
      (compile (some no_models) none true "flow" "1" nodes none [])
unfolding linear_edges
compile-Accepts_example = compile-Accepts (some no_models) none true "flow" "1" nodes none []
