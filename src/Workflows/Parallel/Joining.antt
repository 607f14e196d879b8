-- ===== src/Workflows/Parallel/Joining.antt =====
-- What `ParallelNode` of coflowai/workflows/node.py makes of its branches.
use coflowai.Base.{
  ◌≡◌, refl, ◌∙◌, String, none, Bool, true, false, ◌&&◌, List, [], ◌∷◌, map, any, Value, arith,
  if◌then◌else◌, Bool-cases, inl, inr,
}
use coflowai.Base.Dict
use coflowai.Base.Dict.{Dict}
use coflowai.Core.Errors.{Error}
use coflowai.Core.Result.{succeeded}
use coflowai.Core.Context.{ExecutionContext, child}
use coflowai.State.Checkpoint.{ExecutionState}
use coflowai.Runtime.Drive.{Outcome, returned, approval, raised}
use coflowai.Workflows.Parallel.{
  Task, error_of, has_raised, was_cancelled, collect, collect_all, raised_failures, absorbed, join,
}

abbrev pub is_success : Outcome → Bool
is_success (returned r) = succeeded r
is_success _ = false

abbrev pub all_succeed : List Task → Bool
all_succeed [] = true
all_succeed (t ∷ ts) = is_success t.outcome && all_succeed ts

abbrev is_empty : Dict Error → Bool
is_empty [] = true
is_empty (p ∷ d) = false

is_empty-put : (d : Dict Error) (k : String) (e : Error) → is_empty (Dict.put d k e) ≡ false
unfolding Dict.put
is_empty-put [] k e = refl
is_empty-put ((j, x) ∷ d) k e = ground arith

-- An outcome that is no exception.
abbrev is_value : Outcome → Bool
is_value (returned r) = true
is_value _ = false

is_empty-collect :
    (name : String) (o : Outcome) (pairs : Dict Value × Dict Error)
    → is_value o ≡ true
    → is_empty (collect name o pairs).1 ≡ (is_success o && is_empty pairs.1)
is_empty-collect name (returned r) pairs h = ground (arith, is_empty-put pairs.1 name (error_of r))
is_empty-collect name (approval id node_id) pairs h = cc
is_empty-collect name (raised e) pairs h = cc

abbrev all_values : List Task → Bool
all_values [] = true
all_values (t ∷ ts) = is_value t.outcome && all_values ts

is_empty-collect_all :
    (ts : List Task) (pairs : Dict Value × Dict Error)
    → all_values ts ≡ true
    → is_empty (collect_all ts pairs).1 ≡ (all_succeed ts && is_empty pairs.1)
unfolding collect_all
is_empty-collect_all [] pairs h = refl
is_empty-collect_all (t ∷ ts) pairs h = ground (
  arith,
  is_empty-collect_all ts (collect t.name t.outcome pairs),
  is_empty-collect t.name t.outcome pairs,
)

value_of_none :
    (t : Task) → has_raised t ≡ false → was_cancelled t ≡ false → is_value t.outcome ≡ true
value_of_none t h k = ground arith

all_values_of_none :
    (ts : List Task)
    → any has_raised ts ≡ false
    → any was_cancelled ts ≡ false
    → all_values ts ≡ true
all_values_of_none [] h k = refl
all_values_of_none (t ∷ ts) h k = ground (arith, value_of_none t, all_values_of_none ts)

no_exception :
    (t : Task) → is_success t.outcome ≡ true → (has_raised t ≡ false) × (was_cancelled t ≡ false)
no_exception t h = ground arith

no_exceptions :
    (ts : List Task)
    → all_succeed ts ≡ true
    → (any has_raised ts ≡ false) × (any was_cancelled ts ≡ false)
no_exceptions [] h = (refl, refl)
no_exceptions (t ∷ ts) h = ground (arith, no_exception t, no_exceptions ts)

module _ (c : ExecutionContext) (children : List ExecutionContext)
    (baseline : ExecutionContext) where
  absorbed-success :
      (pairs : Dict Value × Dict Error)
      → is_success (absorbed none true c children baseline pairs).0 ≡ is_empty pairs.1
  unfolding absorbed
  absorbed-success (outputs, []) = refl
  absorbed-success (outputs, (name, e) ∷ failures) = refl

  absorbed_gathered :
      (pairs : Dict Value × Dict Error)
      → is_success (absorbed none false c children baseline pairs).0 ≡ true
  unfolding absorbed
  absorbed_gathered (outputs, []) = refl
  absorbed_gathered (outputs, (name, e) ∷ failures) = refl

-- Without a `merge`: under `fail_fast` the node succeeds exactly when each of its branches does.
-- Else it always succeeds, whatever becomes of the branches.
pub join_succeeds :
    (c : ExecutionContext) (state : ExecutionState) (tasks : List Task)
    → (is_success (join none true c state tasks).0 ≡ all_succeed tasks)
      × (is_success (join none false c state tasks).0 ≡ true)
unfolding join
join_succeeds c state tasks =
    let c' = record c { state = state } in
    let children = map (λ (t : Task). t.context) tasks in
    let baseline = child c none none none none in
    (
      elim (Bool-cases (any has_raised tasks)) [
        | inl h ↦ rw (h, if◌then◌else◌) (ground (arith, no_exceptions tasks))
        | inr h ↦
            rw (h, if◌then◌else◌)
              (elim (Bool-cases (any was_cancelled tasks)) [
                | inl k ↦ rw (k, if◌then◌else◌) (ground (arith, no_exceptions tasks))
                | inr k ↦
                    rw (k, if◌then◌else◌)
                      (absorbed-success c' children baseline (collect_all tasks ([], []))
                        ∙ is_empty-collect_all tasks ([], []) (all_values_of_none tasks h k)
                        ∙ and-true (all_succeed tasks))
              ])
      ],
      absorbed_gathered c' children baseline (collect_all tasks ([], raised_failures tasks [])),
    )
  where
    and-true : (b : Bool) → (b && true) ≡ b
    and-true b = ground arith
