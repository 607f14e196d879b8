-- ===== src/Workflows/Compiler/Compile.antt =====
-- `compile` of coflowai/workflows/compiler.py: the validations one after the other, and the graph of
-- coflowai/workflows/graph.py.
pub mod Soundness
use coflowai.Base.{String, Option, none, some, Bool, List, Value}
use coflowai.Base.Dict.{Dict}
use coflowai.Core.Errors.{Result, ok, err}
use coflowai.Policies.Permissions.{Text}
use coflowai.Models.Registry.{ModelRegistry}
use coflowai.Workflows.Workflow.{Node}
use coflowai.Workflows.Compiler.{
  Edge, ids_of, linear_edges, validate_ids, validate_edges, validate_reachability, validate_acyclic,
  validate_permissions, validate_models,
}

pub record ExecutionGraph (W : Type 0) : Type 0 where
  pub name : String
  pub version : String
  pub nodes : List (Node W)
  pub edges : List Edge
  pub metadata : Dict Value

-- A validation, and what follows it; `none` means that the fuel of a validation ran out.
abbrev pub proceed {ℓ} :
    {A : Type ℓ} → Option (Result (Unit {0})) → Option (Result A) → Option (Result A)
proceed none next = none
proceed (some (err e)) next = some (err e)
proceed (some (ok u)) next = next

abbrev pub edges_or : Option (List Edge) → List String → List Edge
unfolding linear_edges
edges_or none ids = linear_edges ids
edges_or (some edges) ids = edges

module _ {W : Type 0} {P : Type 0} where
  abbrev pub models_of : Option (ModelRegistry P) → List (Node W) → Result (Unit {0})
  unfolding validate_models
  models_of none nodes = ok tt
  models_of (some registry) nodes = validate_models registry nodes

  unfoldable pub compile :
      (registry : Option (ModelRegistry P))
      → (permissions : Option (List Text)) → (strict : Bool) → (name version : String)
      → List (Node W)
      → Option (List Edge)
      → (metadata : Dict Value) → Option (Result (ExecutionGraph W))
  unfolding edges_or models_of validate_ids validate_edges validate_reachability validate_acyclic
      validate_permissions
  compile registry permissions strict name version nodes edges metadata =
      let all = edges_or edges (ids_of nodes) in
      proceed (some (validate_ids (ids_of nodes))) (
        proceed (some (validate_edges (ids_of nodes) all)) (
          proceed (validate_reachability (ids_of nodes) all) (
            proceed (validate_acyclic all) (
              proceed (some (validate_permissions permissions strict nodes)) (
                proceed (some (models_of registry nodes)) (
                  some (
                    ok (record {
                      name = name;
                      version = version;
                      nodes = nodes;
                      edges = all;
                      metadata = metadata;
                    }))))))))
