-- ===== src/Core/Context/Budgets.antt =====
-- What the budget checks of coflowai/core/context.py let through.
use coflowai.Base.{ℕ, ◌+◌, ◌≤◌, ◌<◌, ◌≡◌, ◌↔◌, refl, sym, ap, ◌∙◌, false, arith}
use coflowai.Core.Errors.{Result, ok, err}
use coflowai.Policies.Policy.{check_model_call, check_tool_call, check_step}
use coflowai.Policies.Policy.Limits.{Below, check_call_iff}
use coflowai.Core.Context.{
  ExecutionContext, is_late, ensure_alive, next_step, spent, total_tokens, after_check, gated,
  check_model_budget, check_tool_budget,
}

-- The execution was not cancelled and its deadline has not passed.
abbrev pub IsAlive : ℕ → ExecutionContext → Type 0
IsAlive now c = (c.cancelled ≡ false) × (is_late c.deadline now ≡ false)

ensure_alive_iff : (now : ℕ) (c : ExecutionContext) → (ensure_alive now c ≡ ok tt) ↔ IsAlive now c
unfolding ensure_alive
ensure_alive_iff now c = (λ h. ground arith, λ h. ground arith)

after_check-result : (c : ExecutionContext) (r : Result (Unit {0})) → (after_check c r).0 ≡ r
unfolding after_check
after_check-result c (err e) = refl
after_check-result c (ok u) = refl

gated-ok :
    (a k : Result (Unit {0})) (c : ExecutionContext)
    → ((gated a k c).0 ≡ ok tt) ↔ ((a ≡ ok tt) × (k ≡ ok tt))
unfolding gated
gated-ok (err e) k c = (λ h. (h, cc), λ h. h.0)
gated-ok (ok u) k c =
    (λ h. (refl, sym (after_check-result c k) ∙ h), λ h. after_check-result c k ∙ h.1)

-- An execution may call a model exactly when it is alive and its model calls, tokens and cost lie
-- strictly below their limits; it may call a tool exactly when the same holds of its tool calls.
pub check_budget_iff :
    (now : ℕ) (c : ExecutionContext)
    → (((check_model_budget now c).0 ≡ ok tt) ↔ (
        IsAlive now c
        × ((c.model_calls < c.policy.max_model_calls)
            × Below c.policy.max_tokens (total_tokens c)
            × Below c.policy.max_cost c.cost)))
      × (((check_tool_budget now c).0 ≡ ok tt) ↔ (
          IsAlive now c
          × ((c.tool_calls < c.policy.max_tool_calls)
              × Below c.policy.max_tokens (total_tokens c)
              × Below c.policy.max_cost c.cost)))
unfolding check_model_budget check_tool_budget
check_budget_iff now c =
    let calls = check_call_iff c.policy (spent c) in
    let alive = ensure_alive_iff now c in
    let model = gated-ok (ensure_alive now c) (check_model_call c.policy (spent c)) c in
    let tool = gated-ok (ensure_alive now c) (check_tool_call c.policy (spent c)) c in
    (
      (
        λ h. (alive.0 (model.0 h).0, calls.0.0 (model.0 h).1),
        λ h. model.1 (alive.1 h.0, calls.0.1 h.1),
      ),
      (
        λ h. (alive.0 (tool.0 h).0, calls.1.0 (tool.0 h).1),
        λ h. tool.1 (alive.1 h.0, calls.1.1 h.1),
      ),
    )

-- A step is taken exactly when the execution is alive and the step is within `max_steps`; it then
-- counts one more step and changes nothing else.
pub next_step_lem :
    (now : ℕ) (c : ExecutionContext) (n : ℕ)
    → ((next_step now c).0 ≡ ok n) ↔ (
        IsAlive now c
        × (c.step + 1 ≤ c.policy.max_steps)
        × (n ≡ c.step + 1)
        × (next_step now c ≡ (ok n, record c { step = c.step + 1 })))
unfolding next_step check_step
next_step_lem now c n = (λ h. ground arith, λ h. ap (λ (r : Result ℕ × ExecutionContext). r.0) h.3)
