-- ===== src/Workflows/Workflow/Ledger.antt =====
-- What a run of coflowai/workflows/workflow.py does to its ledger of completed nodes.
use coflowai.Base.{
  ◌≡◌, refl, ap, ◌∙◌, String, Option, none, some, true, false, List, [], ◌∷◌, ◌++◌, Value, All,
  arith, str_eq, if◌then◌else◌, Bool-cases, inl, inr, eq_refl,
}
use coflowai.Base.Dict
use coflowai.Base.Dict.{Dict, has-put, get-put_self, has_of_get, get_of_has}
use coflowai.Core.Types.{completed}
use coflowai.Core.Errors.{ok, is_cancelled}
use coflowai.Core.Result.{ExecutionResult, succeeded}
use coflowai.Core.Context.{ExecutionContext, child, share, merge_from, ensure_alive}
use coflowai.Runtime.Drive.{returned, approval, raised}
use coflowai.Workflows.Executable.{Services, Ended, Execute, Executable, adopt, alive_then, checked}
use coflowai.Workflows.Workflow.{Node, ledger, mark, node_done, visit, run_nodes}

abbrev pub IsDone : String → ExecutionContext → String → Type 0
IsDone name c id = Dict.has (ledger c name) id ≡ true

IsDone-mark :
    (c : ExecutionContext) (name id key : String) (v : Value)
    → Dict.has (ledger (mark c name id v) name) key
      ≡ (if str_eq id key then true else Dict.has (ledger c name) key)
IsDone-mark c name id key v =
    rw (get-put_self c.state.completed name (Dict.put (ledger c name) id v))
      (has-put (ledger c name) id key v)

-- An executable leaves the ledger of the workflow as it finds it.
abbrev pub Keeps : {W : Type 0} → String → Executable W → Type 0
Keeps {W} name x = (c : ExecutionContext) (w : W) → ledger (x.execute c w).1 name ≡ ledger c name

-- The executions were alive throughout: neither cancelled nor past the deadline at any time.
abbrev pub IsAlive : {W : Type 0} → Services W → ExecutionContext → Type 0
IsAlive {W} services c = (w : W) → ensure_alive (services.now w) c ≡ ok tt

not_has_of_none : (d : Dict Value) (k : String) → Dict.get d k ≡ none → Dict.has d k ≡ false
not_has_of_none d k e = elim (Bool-cases (Dict.has d k)) [
  | inr h ↦ h
  | inl h ↦ let (v, g) = get_of_has d k h in cc
]

module _ {W : Type 0} (services : Services W) (name : String) where
  -- The end of the run of the nodes `ns`: all are done and the run succeeded, or it stopped at a
  -- node that is not done, after nodes that are.
  pub data Stopped (ns : List (Node W)) (e : Ended W) : Type 0 where
    finished :
        (r : ExecutionResult)
        → e.0 ≡ returned r
        → r.status ≡ completed
        → All (λ (n : Node W). IsDone name e.1 n.id) ns
        → Stopped ns e
    stopped :
        (xs : List (Node W)) (n : Node W) (ys : List (Node W))
        → ns ≡ xs ++ n ∷ ys
        → All (λ (m : Node W). IsDone name e.1 m.id) xs
        → Dict.has (ledger e.1 name) n.id ≡ false
        → Stopped ns e

  -- What is done stays done.
  abbrev pub Grows : ExecutionContext → Ended W → Type 0
  Grows c e = (id : String) → IsDone name c id → IsDone name e.1 id

  Stopped-cons :
      (n : Node W) (ns : List (Node W)) (e : Ended W)
      → IsDone name e.1 n.id
      → Stopped ns e
      → Stopped (n ∷ ns) e
  Stopped-cons n ns e d (finished r f s a) = finished r f s (d, a)
  Stopped-cons n ns e d (stopped xs m ys q a b) = stopped (n ∷ xs) m ys (ap (λ l. n ∷ l) q) (d, a) b

  -- The ledger after `mark` has the node and all that was there.
  IsDone-of-mark :
      (c : ExecutionContext) (id key : String) (v : Value)
      → IsDone name c key
      → IsDone name (mark c name id v) key
  IsDone-of-mark c id key v h = IsDone-mark c name id key v ∙ (ground (arith, h))

  self-mark : (c : ExecutionContext) (id : String) (v : Value) → IsDone name (mark c name id v) id
  self-mark c id v = IsDone-mark c name id id v ∙ rw (eq_refl id) refl

  -- What a run of the nodes `ns` from `c` guarantees.
  abbrev pub Progress : List (Node W) → ExecutionContext → Ended W → Type 0
  Progress ns c e = Stopped ns e × Grows c e

  module _ (n : Node W) (ns : List (Node W)) (next : Value → ExecutionResult → Execute W)
      (ih : (v : Value) (r : ExecutionResult) (c : ExecutionContext) (w : W)
        → IsAlive services c
        → Progress ns c (next v r c w)) where
    halted :
        (c : ExecutionContext) (e : Ended W)
        → ledger e.1 name ≡ ledger c name
        → Dict.has (ledger c name) n.id ≡ false
        → Progress (n ∷ ns) c e
    halted c e kept fresh = (
      stopped [] n ns refl tt (ap (λ (d : Dict Value). Dict.has d n.id) kept ∙ fresh),
      λ id h. ap (λ (d : Dict Value). Dict.has d id) kept ∙ h,
    )

    node_done-Progress :
        (c : ExecutionContext) (e : Ended W)
        → IsAlive services c
        → ledger e.1 name ≡ ledger c name
        → Dict.has (ledger c name) n.id ≡ false
        → Progress (n ∷ ns) c (node_done services name n.id next c e)
    unfolding node_done ensure_alive merge_from
    node_done-Progress c (returned r, k, w) alive kept fresh = elim (Bool-cases (succeeded r)) [
      | inr h ↦ rw (h, if◌then◌else◌) (halted c (returned r, adopt c k, w) kept fresh)
      | inl h ↦
          let marked = mark (adopt c k) name n.id r.output in
          rw (h, if◌then◌else◌)
            (let p = ih r.output r marked _ alive in
              (
                Stopped-cons n ns _ (p.1 n.id (self-mark (adopt c k) n.id r.output)) p.0,
                λ id d. p.1 id (
                    IsDone-of-mark (adopt c k) n.id id r.output
                      (ap (λ (l : Dict Value). Dict.has l id) kept ∙ d)),
              ))
    ]
    node_done-Progress c (approval a b, k, w) alive kept fresh =
        halted c (approval a b, adopt c k, _) kept fresh
    node_done-Progress c (raised e, k, w) alive kept fresh = elim (Bool-cases (is_cancelled e)) [
      | inl h ↦ rw (h, if◌then◌else◌) (halted c (raised e, share c k, w) kept fresh)
      | inr h ↦ rw (h, if◌then◌else◌) (halted c (raised e, adopt c k, _) kept fresh)
    ]

  checked-Progress :
      (n : Node W) (ns : List (Node W)) (rest : Execute W) (c : ExecutionContext) (w : W)
      → Progress (n ∷ ns) c (rest c w)
      → ensure_alive (services.now w) c ≡ ok tt
      → Progress (n ∷ ns) c (alive_then services rest c w)
  unfolding alive_then checked
  checked-Progress n ns rest c w p alive = rw (alive, checked) p

  module _ (n : Node W) (ns : List (Node W)) (current : Value) (result : ExecutionResult)
      (kept : Keeps name n.executable)
      (ih : (v : Value) (r : ExecutionResult) (c : ExecutionContext) (w : W)
        → IsAlive services c
        → Progress ns c (run_nodes services name ns v r c w)) where
    visit-Progress :
        (c : ExecutionContext) (w : W) (found : Option Value)
        → IsAlive services c
        → Dict.get (ledger c name) n.id ≡ found
        → Progress
            (n ∷ ns)
            c
            (visit services name n (run_nodes services name ns) current result found c w)
    unfolding visit child
    visit-Progress c w (some v) alive e =
        let p = ih v result c (services.emit c "workflow.node.skipped" w) alive in
        (Stopped-cons n ns _ (p.1 n.id (has_of_get (ledger c name) n.id v e)) p.0, p.1)
    visit-Progress c w none alive e =
        node_done-Progress n ns (run_nodes services name ns) ih c
          (n.executable.execute (child c (some current) (some n.id) none none) _) alive
          (kept (child c (some current) (some n.id) none none) _)
          (not_has_of_none (ledger c name) n.id e)

  -- Where every node leaves the ledger to the workflow and the execution stays alive, a run of the
  -- nodes either succeeds with all of them in the ledger, or it stops at a node that is not in the
  -- ledger, after nodes that are; and what was in the ledger stays there.
  pub run_nodes-Progress :
      (ns : List (Node W)) (current : Value) (result : ExecutionResult) (c : ExecutionContext)
      (w : W)
      → All (λ (n : Node W). Keeps name n.executable) ns
      → IsAlive services c
      → Progress ns c (run_nodes services name ns current result c w)
  unfolding run_nodes
  run_nodes-Progress [] current result c w kept alive =
      (finished (record result { output = current; status = completed }) refl refl tt, λ id d. d)
  run_nodes-Progress (n ∷ ns) current result c w kept alive =
      checked-Progress n ns
        (λ c w.
          visit services name n (run_nodes services name ns) current result
            (Dict.get (ledger c name) n.id) c w)
        c w
        (visit-Progress n ns current result kept.0
          (λ v r c' w' a. run_nodes-Progress ns v r c' w' kept.1 a) c w
          (Dict.get (ledger c name) n.id) alive refl)
        (alive w)
