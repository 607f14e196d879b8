-- ===== src/Core/Context/Keeping.antt =====
-- The checks of the budget in coflowai/core/context.py change nothing of the context but
-- the mark that it was warned.
use coflowai.Base.{ℕ, ◌≡◌, refl, Bool, true, false, List, [], ◌∷◌, if◌then◌else◌}
use coflowai.Core.Errors.{Result, ok, err}
use coflowai.Core.Context.{
  Event, event, ExecutionContext, spent, ensure_alive, gated, after_check, check_tool_budget,
  check_model_budget, maybe_warn_budget,
}
use coflowai.Policies.Policy.{
  budget, check_tool_call, check_model_call, utilisation, ratio_leb, warn_at,
}

module _ {A : Type 0} (f : ExecutionContext → A) (c : ExecutionContext)
    (same : f (record c { budget_warned = true }) ≡ f c) where
  pub maybe_warn_budget-same : f (maybe_warn_budget c).0 ≡ f c
  unfolding maybe_warn_budget
  maybe_warn_budget-same =
      by_flags c.budget_warned (ratio_leb warn_at (utilisation (budget c.policy) (spent c)))
    where
      pair : ExecutionContext → List Event → ExecutionContext × List Event
      pair k events = (k, events)

      by_flags :
          (b g : Bool)
          → f
              (if b
                then pair c []
                else if g
                then pair (record c { budget_warned = true }) (event c "budget.warning" ∷ [])
                else pair c []).0
            ≡ f c
      by_flags true g = refl
      by_flags false true = same
      by_flags false false = refl

  by_alive : (a b : Result (Unit {0})) → f (gated a b c).1 ≡ f c
  unfolding gated after_check
  by_alive (err e) b = refl
  by_alive (ok u) (err e) = refl
  by_alive (ok u) (ok v) = maybe_warn_budget-same

  pub check_tool_budget-same : (now : ℕ) → f (check_tool_budget now c).1 ≡ f c
  unfolding check_tool_budget
  check_tool_budget-same now = by_alive (ensure_alive now c) (check_tool_call c.policy (spent c))

  pub check_model_budget-same : (now : ℕ) → f (check_model_budget now c).1 ≡ f c
  unfolding check_model_budget
  check_model_budget-same now = by_alive (ensure_alive now c) (check_model_call c.policy (spent c))
