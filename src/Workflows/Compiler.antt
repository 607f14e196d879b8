-- ===== src/Workflows/Compiler.antt =====
-- coflowai/workflows/compiler.py: `WorkflowCompiler`. A compilation error is one class; the details
-- of its message are left out. An adjacency is the function `successors` of the edges. A node has
-- an executable by its type.
pub mod Compile
pub mod Cycles
pub mod Reachability
pub mod Search
use coflowai.Base.{
  ℕ, zero, suc, String, Option, none, some, Bool, true, false, not, ◌&&◌, List, [], ◌∷◌, map,
  length, contains, str_eq, if◌then◌else◌,
}
use coflowai.Base.Dict
use coflowai.Base.Dict.{Dict}
use coflowai.Core.Errors.{ErrorClass, Error, plain, Result, ok, err}
use coflowai.Policies.Permissions.{Text}
use coflowai.Policies.Permissions
use coflowai.Models.Registry
use coflowai.Models.Registry.{RegisteredModel, ModelRegistry}
use coflowai.Workflows.Executable.{Leaf}
use coflowai.Workflows.Workflow.{Node}

abbrev pub compilation_error : Error
compilation_error = plain ErrorClass.compilation_error

-- coflowai/workflows/graph.py; a label is for drawings.
pub record Edge : Type 0 where
  pub source : String
  pub target : String

-- Fails unless the test holds.
abbrev pub require : Bool → Result (Unit {0})
require true = ok tt
require false = err compilation_error

-- One validation after the other.
abbrev pub then_check : Result (Unit {0}) → Result (Unit {0}) → Result (Unit {0})
then_check (err e) next = err e
then_check (ok u) next = next

-- The `seen` loop of `_validate_nodes`.
unfoldable pub distinct : List String → List String → Bool
distinct seen [] = true
distinct seen (id ∷ ids) = not (contains seen id) && distinct (id ∷ seen) ids

unfoldable pub validate_ids : List String → Result (Unit {0})
unfolding distinct
validate_ids [] = err compilation_error
validate_ids (id ∷ ids) = require (distinct [] (id ∷ ids))

unfoldable pub linear_edges : List String → List Edge
linear_edges [] = []
linear_edges (a ∷ []) = []
linear_edges (a ∷ b ∷ rest) = record { source = a; target = b } ∷ linear_edges (b ∷ rest)

-- `_validate_edges`
unfoldable pub validate_edges : List String → List Edge → Result (Unit {0})
validate_edges ids [] = ok tt
validate_edges ids (e ∷ es) =
    then_check (require (contains ids e.source && contains ids e.target)) (validate_edges ids es)

-- `adjacency.get(id, ())`, which is also `ExecutionGraph.successors`
unfoldable pub successors : List Edge → String → List String
successors [] id = []
successors (e ∷ es) id =
    let rest = successors es id in if str_eq e.source id then e.target ∷ rest else rest

-- The loop over the successors, on `seen` and the stack, whose top is its head.
unfoldable pub push_new : List String → (seen stack : List String) → List String × List String
push_new [] seen stack = (seen, stack)
push_new (n ∷ ns) seen stack =
    push_new ns (if contains seen n then seen else n ∷ seen)
      (if contains seen n then stack else n ∷ stack)

-- The `while stack` loop; `none` means that the fuel ran out.
unfoldable pub search_from : List Edge → ℕ → (seen stack : List String) → Option (List String)
unfolding push_new successors
search_from edges fuel seen [] = some seen
search_from edges zero seen (current ∷ stack) = none
search_from edges (suc fuel) seen (current ∷ stack) =
    let (seen', stack') = push_new (successors edges current) seen stack in
    search_from edges fuel seen' stack'

-- Every edge pushes its target once at most.
unfoldable pub reached_from : List Edge → String → Option (List String)
unfolding search_from
reached_from edges start = search_from edges (suc (length edges)) (start ∷ []) (start ∷ [])

unfoldable pub all_seen : List String → List String → Bool
all_seen seen [] = true
all_seen seen (id ∷ ids) = contains seen id && all_seen seen ids

abbrev pub require_seen : List String → Option (List String) → Option (Result (Unit {0}))
unfolding all_seen
require_seen ids none = none
require_seen ids (some seen) = some (require (all_seen seen ids))

unfoldable pub validate_reachability : List String → List Edge → Option (Result (Unit {0}))
unfolding reached_from all_seen
validate_reachability [] edges = some (ok tt)
validate_reachability (start ∷ []) edges = some (ok tt)
validate_reachability (start ∷ id ∷ ids) edges =
    require_seen (start ∷ id ∷ ids) (reached_from edges start)

-- What a walk ends with: the nodes that are black, or an error; `none` means that the fuel ran out.
abbrev pub Walk : Type 0
Walk = Option (Result (List String))

abbrev pub after_walk : Walk → (List String → Walk) → Walk
after_walk none next = none
after_walk (some (err e)) next = some (err e)
after_walk (some (ok black)) next = next black

-- The loops of `_validate_acyclic`, which visit the white ones of the nodes. The grey nodes are those
-- of the calls of `visit` that are under way, the newest first; the black ones stand in the order in
-- which their calls ended, the newest first.
unfoldable pub walk :
    (visit : String → List String → Walk) → (grey nodes black : List String) → Walk
walk visit grey [] black = some (ok black)
walk visit grey (n ∷ ns) black =
    let rest = walk visit grey ns in
    if contains grey n
    then some (err compilation_error)
    else if contains black n
    then rest black
    else after_walk (visit n black) rest

-- `colour[node] = BLACK`
abbrev pub blackened : String → Walk → Walk
blackened n r = after_walk r (λ black. some (ok (n ∷ black)))

unfoldable pub visit : List Edge → (fuel : ℕ) → (grey : List String) → String → List String → Walk
unfolding walk successors
visit edges zero grey n black = none
visit edges (suc fuel) grey n black =
    blackened n (walk (visit edges fuel (n ∷ grey)) (n ∷ grey) (successors edges n) black)

abbrev pub verdict : Walk → Option (Result (Unit {0}))
verdict none = none
verdict (some (err e)) = some (err e)
verdict (some (ok black)) = some (ok tt)

-- The visits under way are at different nodes, and all but the innermost at sources of edges.
unfoldable pub validate_acyclic : List Edge → Option (Result (Unit {0}))
unfolding walk visit
validate_acyclic edges =
    verdict (walk (visit edges (suc (length edges)) []) [] (map (λ (e : Edge). e.source) edges) [])

abbrev pub is_nil {ℓ} : {A : Type ℓ} → List A → Bool
is_nil [] = true
is_nil (x ∷ xs) = false

module _ {W : Type 0} where
  abbrev pub ids_of : List (Node W) → List String
  ids_of nodes = map (λ (n : Node W). n.id) nodes

  -- `_validate_permissions`: no node misses a permission.
  unfoldable pub none_missing : List Text → List (Node W) → Bool
  none_missing granted [] = true
  none_missing granted (n ∷ ns) =
      is_nil (Permissions.missing granted n.executable.required_permissions)
      && none_missing granted ns

  unfoldable pub validate_permissions :
      Option (List Text) → (strict : Bool) → List (Node W) → Result (Unit {0})
  unfolding none_missing
  validate_permissions none strict nodes = ok tt
  validate_permissions (some granted) false nodes = ok tt
  validate_permissions (some granted) true nodes = require (none_missing granted nodes)

module _ {P : Type 0} (registry : ModelRegistry P) where
  -- Whether a model of the registry has what is required.
  abbrev pub lacks_nothing : Dict Bool → Option (RegisteredModel P) → Bool
  unfolding Registry.missing
  lacks_nothing requirements none = false
  lacks_nothing requirements (some m) = is_nil (Registry.missing m requirements)

  abbrev pub selectable : Result (RegisteredModel P) → Bool
  selectable (ok m) = true
  selectable (err e) = false

  abbrev pub some_model : Dict Bool → Bool
  unfolding Registry.select
  some_model [] = true
  some_model (q ∷ qs) = selectable (Registry.select registry (q ∷ qs) "priority" [])

  -- `_validate_one`
  unfoldable pub leaf_fits : Leaf → Bool
  unfolding Registry.missing Registry.select
  leaf_fits leaf = elim leaf.model [
    | none ↦ some_model leaf.model_requirements
    | some name ↦
        if str_eq name ""
        then some_model leaf.model_requirements
        else lacks_nothing leaf.model_requirements (Dict.get registry.models name)
  ]

  unfoldable pub leaves_fit : List Leaf → Bool
  unfolding leaf_fits
  leaves_fit [] = true
  leaves_fit (l ∷ ls) = leaf_fits l && leaves_fit ls

  unfoldable pub validate_models : {W : Type 0} → List (Node W) → Result (Unit {0})
  unfolding leaves_fit
  validate_models [] = ok tt
  validate_models (n ∷ ns) =
      then_check (require (leaves_fit n.executable.leaves)) (validate_models ns)
