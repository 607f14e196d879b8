-- ===== src/Workflows/Workflow/Resuming.antt =====
-- A workflow of coflowai/workflows/workflow.py that runs again from its ledger.
use coflowai.Core.Types.{completed}
use coflowai.Runtime.Drive.{returned}
use coflowai.Base.{◌≡◌, refl, String, none, some, false, List, [], ◌∷◌, ◌++◌, Value, All}
use coflowai.Base.Dict
use coflowai.Base.Dict.{Dict, get_of_has}
use coflowai.Core.Result.{ExecutionResult}
use coflowai.Core.Context.{ExecutionContext}
use coflowai.Workflows.Executable.{Services, alive_then, checked}
use coflowai.Workflows.Workflow.{Node, ledger, visit, run_nodes}
use coflowai.Workflows.Workflow.Ledger.{IsDone, IsAlive}

module _ {W : Type 0} (services : Services W) (name : String) where
  -- The output that the ledger has for the last of the nodes, or the value from before them.
  abbrev pub kept_output : Dict Value → List (Node W) → Value → Value
  kept_output d [] v = v
  kept_output d (n ∷ ns) v = kept_output d ns (elim (Dict.get d n.id) [ none ↦ v | some u ↦ u ])

  -- The world after the announcements that the nodes are skipped.
  abbrev pub skipped : ExecutionContext → List (Node W) → W → W
  skipped c [] w = w
  skipped c (n ∷ ns) w = skipped c ns (services.emit c "workflow.node.skipped" w)

  -- Nodes that are in the ledger are not run: the run of such nodes and further ones is the run of
  -- the further ones, from the output that the ledger has, once the skips are announced.
  pub run_nodes-append :
      (xs ys : List (Node W)) (current : Value) (result : ExecutionResult) (c : ExecutionContext)
      (w : W)
      → IsAlive services c
      → All (λ (n : Node W). IsDone name c n.id) xs
      → run_nodes services name (xs ++ ys) current result c w
        ≡ run_nodes services name ys
            (kept_output (ledger c name) xs current)
            result
            c
            (skipped c xs w)
  unfolding run_nodes alive_then
  run_nodes-append [] ys current result c w alive d = refl
  run_nodes-append (x ∷ xs) ys current result c w alive d =
      let (v, g) = get_of_has (ledger c name) x.id d.0 in
      rw (alive w, checked)
        (rw (g, visit)
          (run_nodes-append xs ys v result c (services.emit c "workflow.node.skipped" w) alive d.1))

  -- How a run from `c` with the ledger of an earlier run begins.
  pub data Resumes (ns : List (Node W)) (current : Value) (result : ExecutionResult)
      (c : ExecutionContext) (w : W) : Type 0 where
    complete :
        run_nodes services name ns current result c w ≡ (
          returned (record result {
            output = kept_output (ledger c name) ns current;
            status = completed;
          }),
          c,
          skipped c ns w,
        )
        → Resumes ns current result c w
    again :
        (xs : List (Node W)) (n : Node W) (ys : List (Node W))
        → ns ≡ xs ++ n ∷ ys
        → Dict.has (ledger c name) n.id ≡ false
        → run_nodes services name ns current result c w
          ≡ visit services name n
              (run_nodes services name ys)
              (kept_output (ledger c name) xs current)
              result
              none
              c
              (skipped c xs w)
        → Resumes ns current result c w
