-- ===== src/Workflows/Compiler/Compile/Soundness.antt =====
-- What `compile` of coflowai/workflows/compiler.py accepts.
use coflowai.Base.{
  ◌≡◌, ◌↔◌, refl, ap, ◌∙◌, sym, subst, String, Option, none, some, Bool, true, false, ◌&&◌, List,
  [], ◌∷◌, contains, Distinct, All, arith, str_eq, eq_iff, eq_refl, Value, or-eq-true, inl, inr,
}
use coflowai.Base.Dict.{Dict}
use coflowai.Core.Errors.{Result, ok, err}
use coflowai.Policies.Permissions.{Text}
use coflowai.Models.Registry.{ModelRegistry}
use coflowai.Workflows.Workflow.{Node}
use coflowai.Workflows.Compiler.{
  Edge, require, then_check, distinct, ids_of, validate_ids, validate_edges, validate_reachability,
  validate_acyclic, validate_permissions,
}
use coflowai.Workflows.Compiler.Search.{Reachable}
use coflowai.Workflows.Compiler.Reachability.{validate_reachability_iff}
use coflowai.Workflows.Compiler.Cycles.{IsCyclic, Decides, validate_acyclic-Decides}
use coflowai.Workflows.Compiler.Compile.{ExecutionGraph, proceed, edges_or, models_of, compile}

-- The answer of a validation tells whether the condition holds.
abbrev Checks : Type 0 → Option (Result (Unit {0})) → Type 0
Checks Q none = ⊥
Checks Q (some (ok u)) = Q
Checks Q (some (err e)) = ¬ Q

-- The answer is the value if the condition holds, and an error if it does not.
abbrev pub Accepts : {A : Type 0} → A → Type 0 → Option (Result A) → Type 0
Accepts a V none = ⊥
Accepts a V (some (ok b)) = (b ≡ a) × V
Accepts a V (some (err e)) = ¬ V

last_check :
    {A : Type 0} (a : A) (Q : Type 0) (r : Option (Result (Unit {0})))
    → Checks Q r
    → Accepts a Q (proceed r (some (ok a)))
last_check a Q none h = h
last_check a Q (some (ok u)) h = (refl, h)
last_check a Q (some (err e)) h = h

also_check :
    {A : Type 0} (a : A) (Q V : Type 0) (r : Option (Result (Unit {0}))) (next : Option (Result A))
    → Checks Q r
    → Accepts a V next
    → Accepts a (Q × V) (proceed r next)
also_check a Q V none next h k = h
also_check a Q V (some (err e)) next h k = λ q. h q.0
also_check a Q V (some (ok u)) none h k = k
also_check a Q V (some (ok u)) (some (ok b)) h k = (k.0, (h, k.1))
also_check a Q V (some (ok u)) (some (err e)) h k = λ q. k q.1

Checks-iff : (Q : Type 0) (v : Result (Unit {0})) → ((v ≡ ok tt) ↔ Q) → Checks Q (some v)
Checks-iff Q (ok u) h = h.0 refl
Checks-iff Q (err e) h = λ q. let same = h.1 q in cc

Checks-require :
    (Q : Type 0) (b : Bool) → (b ≡ true → Q) → (Q → b ≡ true) → Checks Q (some (require b))
Checks-require Q true f g = f refl
Checks-require Q false f g = λ q. let same = g q in cc

-- No id is among those that were seen.
abbrev AreNew : List String → List String → Type 0
AreNew seen ids = (x : String) → contains seen x ≡ true → contains ids x ≡ false

distinct_sound :
    (seen ids : List String) → distinct seen ids ≡ true → Distinct ids × AreNew seen ids
unfolding distinct
distinct_sound seen [] h = (tt, (λ x g. refl))
distinct_sound seen (id ∷ ids) h =
    let rest = distinct_sound (id ∷ seen) ids (ground arith) in
    let new : contains seen id ≡ false = ground arith in
    (
      (rest.1 id (let same = eq_refl id in ground arith), rest.0),
      (λ x g.
          let behind = rest.1 x (ground arith) in
          let same : str_eq id x ≡ true → contains seen id ≡ contains seen x =
            λ e. ap (contains seen) ((eq_iff id x).0 e) in
          ground (arith, same)),
    )

distinct_complete :
    (seen ids : List String) → Distinct ids → AreNew seen ids → distinct seen ids ≡ true
unfolding distinct
distinct_complete seen [] d n = refl
distinct_complete seen (id ∷ ids) d n =
    let fresh : contains seen id ≡ false =
      (let old = n id in let same = eq_refl id in ground arith) in
    let rest = distinct_complete (id ∷ seen) ids d.1 (λ x g.
      elim (or-eq-true (str_eq id x) (contains seen x) g) [
        | inl here ↦ sym (ap (contains ids) ((eq_iff id x).0 here)) ∙ d.0
        | inr there ↦ (let old = n x there in ground arith)
      ]) in
    ground arith

-- One id or more, and all different.
abbrev pub AreProper : List String → Type 0
AreProper [] = ⊥
AreProper (id ∷ ids) = Distinct (id ∷ ids)

validate_ids-Checks : (ids : List String) → Checks (AreProper ids) (some (validate_ids ids))
unfolding validate_ids
validate_ids-Checks [] = λ h. h
validate_ids-Checks (id ∷ ids) =
    Checks-require (Distinct (id ∷ ids)) (distinct [] (id ∷ ids))
      (λ h. (distinct_sound [] (id ∷ ids) h).0)
      (λ d. distinct_complete [] (id ∷ ids) d (λ x h. ground arith))

abbrev pub AreKnown : List String → List Edge → Type 0
AreKnown ids edges =
    All (λ (e : Edge). (contains ids e.source && contains ids e.target) ≡ true) edges

then_check-Checks :
    (b : Bool) (Q : Type 0) (r : Result (Unit {0}))
    → Checks Q (some r)
    → Checks ((b ≡ true) × Q) (some (then_check (require b) r))
then_check-Checks false Q r h = λ q. let same = q.0 in cc
then_check-Checks true Q (ok u) h = (refl, h)
then_check-Checks true Q (err e) h = λ q. h q.1

validate_edges-Checks :
    (ids : List String) (edges : List Edge)
    → Checks (AreKnown ids edges) (some (validate_edges ids edges))
unfolding validate_edges
validate_edges-Checks ids [] = tt
validate_edges-Checks ids (e ∷ es) =
    then_check-Checks (contains ids e.source && contains ids e.target) (AreKnown ids es)
      (validate_edges ids es) (validate_edges-Checks ids es)

abbrev pub AreReachable : List Edge → List String → Type 0
AreReachable edges [] = Unit
AreReachable edges (start ∷ ids) = All (Reachable edges start) (start ∷ ids)

validate_reachability-Checks :
    (ids : List String) (edges : List Edge)
    → Checks (AreReachable edges ids) (validate_reachability ids edges)
validate_reachability-Checks [] edges = unfold validate_reachability in tt
validate_reachability-Checks (start ∷ ids) edges =
    let (v, e, h) = validate_reachability_iff start ids edges in
    subst (Checks (AreReachable edges (start ∷ ids))) (sym e)
      (Checks-iff (AreReachable edges (start ∷ ids)) v h)

Decides-Checks :
    (edges : List Edge) (r : Option (Result (Unit {0})))
    → Decides edges r
    → Checks (¬ IsCyclic edges) r
Decides-Checks edges none h = h
Decides-Checks edges (some (ok u)) h = h
Decides-Checks edges (some (err e)) h = λ n. n h

module _ {W : Type 0} {P : Type 0} where
  -- What a workflow has to satisfy: its ids are different, its edges join them, each can be reached
  -- from the first, no cycle, and the permissions and the models that its nodes need are there.
  abbrev pub IsValid :
      Option (ModelRegistry P) → Option (List Text) → Bool → List (Node W) → List Edge → Type 0
  unfolding models_of validate_permissions
  IsValid registry permissions strict nodes edges =
      AreProper (ids_of nodes)
      × (AreKnown (ids_of nodes) edges
          × (AreReachable edges (ids_of nodes)
              × ((¬ IsCyclic edges)
                  × ((validate_permissions permissions strict nodes ≡ ok tt)
                      × (models_of registry nodes ≡ ok tt)))))

  -- `compile` always ends. It gives the graph of the nodes and edges, where none are given those
  -- from each node to the next, exactly if the workflow is valid: the ids are different and at least
  -- one, the edges join them, each node can be reached from the first, no path of edges leads back
  -- to its start, and the validations of permissions and models find nothing.
  pub compile-Accepts :
      (registry : Option (ModelRegistry P)) (permissions : Option (List Text)) (strict : Bool)
      (name version : String) (nodes : List (Node W)) (edges : Option (List Edge))
      (metadata : Dict Value)
      → Accepts
          (record {
            name = name;
            version = version;
            nodes = nodes;
            edges = edges_or edges (ids_of nodes);
            metadata = metadata;
          })
          (IsValid registry permissions strict nodes (edges_or edges (ids_of nodes)))
          (compile registry permissions strict name version nodes edges metadata)
  unfolding compile
  compile-Accepts registry permissions strict name version nodes edges metadata =
      let ids = ids_of nodes in
      let all = edges_or edges ids in
      let graph : ExecutionGraph W = record {
        name = name;
        version = version;
        nodes = nodes;
        edges = all;
        metadata = metadata;
      } in
      let granted = validate_permissions permissions strict nodes in
      let models = models_of registry nodes in
      also_check graph _ _ (some (validate_ids ids)) _ (validate_ids-Checks ids) (
        also_check graph _ _ (some (validate_edges ids all)) _ (validate_edges-Checks ids all) (
          also_check graph _ _ (validate_reachability ids all) _
            (validate_reachability-Checks ids all)
            (also_check graph _ _ (validate_acyclic all) _
              (Decides-Checks all (validate_acyclic all) (validate_acyclic-Decides all))
              (also_check graph _ _ (some granted) _
                (Checks-iff (granted ≡ ok tt) granted (λ h. h, λ h. h))
                (last_check graph _ (some models)
                  (Checks-iff (models ≡ ok tt) models (λ h. h, λ h. h)))))))
