-- ===== src/Tests/Core.antt =====
-- The theorems about coflowai/core/ at concrete inputs.
use coflowai.Base.{ℕ, zero, suc, ◌≡◌, ◌<◌, ◌↔◌, Option, none, some, [], ◌∷◌, arith}
use coflowai.Core.Errors.{Error, ErrorClass, PythonClass, wrapping, python, Result, ok, err}
use coflowai.Core.Retry.{run_with_retry}
use coflowai.Core.Retry.Bounds.{IsFair, run_with_retry-IsFair}
use coflowai.Core.Context.{check_model_budget, check_tool_budget}
use coflowai.Core.Context.Scopes.{Grew}
use coflowai.Core.Context.Budgets.{IsAlive, check_budget_iff}
use coflowai.Policies.Permissions.{Text}
use coflowai.Policies.Policy.Limits.{Below}
use coflowai.Tests.Data.{context, later_context}

-- A model call that fails on the transport and is wrapped.
abbrev wrapped : Error
wrapped = wrapping ErrorClass.model_error (python PythonClass.timeout_error)

-- Fails on the first two attempts.
abbrev flaky : ℕ → Unit {0} → Result ℕ × Unit {0}
flaky zero w = (err wrapped, w)
flaky (suc zero) w = (err wrapped, w)
flaky n w = (ok n, w)

abbrev seconds : ℕ → ℕ
seconds n = n

run_with_retry-IsFair_example : IsFair 3 (run_with_retry flaky 3 seconds tt)
run_with_retry-IsFair_example = run_with_retry-IsFair flaky 3 seconds tt

abbrev grown : Grew context later_context
grown = record {
  step = omega arith;
  model_calls = omega arith;
  tool_calls = omega arith;
  input_tokens = omega arith;
  output_tokens = omega arith;
  cached_tokens = omega arith;
  cost = omega arith;
}

abbrev b_permission : Option Text
b_permission = some (b'b' ∷ [])

check_budget_iff_example :
    (((check_model_budget 20 context).0 ≡ ok tt)
      ↔ (IsAlive 20 context × ((1 < 2) × Below (some 1000) 150 × Below none 7)))
    × (((check_tool_budget 20 context).0 ≡ ok tt)
        ↔ (IsAlive 20 context × ((2 < 4) × Below (some 1000) 150 × Below none 7)))
check_budget_iff_example = check_budget_iff 20 context

abbrev four : ℕ
four = 4
