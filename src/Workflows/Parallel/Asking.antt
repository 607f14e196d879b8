-- ===== src/Workflows/Parallel/Asking.antt =====
-- A request for an approval in a branch of a parallel node of coflowai/workflows/node.py.
use coflowai.Base.{◌≡◌, String, Option}
use coflowai.Base.Dict.{Dict}
use coflowai.Core.Errors.{PythonClass, python, Result, ok, err}
use coflowai.Core.Context.{ExecutionContext}
use coflowai.Runtime.Drive.{approval, raised}
use coflowai.Workflows.Executable.{Executable, Services, Ended}

module _ {W : Type 0} (services : Services W) (name : String) where
  -- In every context the executable asks for an approval.
  abbrev pub Asks : Executable W → Type 0
  Asks b =
      (k : ExecutionContext) (w : W)
      → (id : String) × (node_id : Option String) × ((b.execute k w).0 ≡ approval id node_id)

  -- The node raises an exception that is no request for an approval, and nothing of what its branches
  -- counted is in the context.
  abbrev pub IsLost : ExecutionContext → Ended W → Type 0
  IsLost c r =
      (r.0 ≡ raised (python PythonClass.other_error))
      × (r.1.model_calls ≡ c.model_calls)
      × (r.1.tool_calls ≡ c.tool_calls)
      × (r.1.cost ≡ c.cost)
      × (r.1.input_tokens ≡ c.input_tokens)
      × (r.1.output_tokens ≡ c.output_tokens)

  -- Where the constructor gives a node, that node is lost.
  abbrev LostNode : ExecutionContext → W → Result (Executable W) → Type 0
  LostNode c w (err e) = Unit
  LostNode c w (ok x) = IsLost c (x.execute c w)
