-- ===== src/Tools/Executor/Retrying.antt =====
-- The retries of coflowai/tools/executor.py.
use coflowai.Base.{ℕ, ◌≡◌, refl, ap, ◌∙◌, true, false, [], Value, some, none, Option, arith}
use coflowai.Core.Session.{Session, emit}
use coflowai.Core.Errors.{Result, ok, err}
use coflowai.Core.Context.{ExecutionContext}
use coflowai.Core.Retry.{Run, run_with_retry, retry_loop, handle, gives_up}
use coflowai.Policies.Policy.{delay_for}
use coflowai.Tools.Registry.{Tool}
use coflowai.Tools.Calls.{Host, Callable, tool_timeout, retry_policy}
use coflowai.Tools.Executor.{attempt, run}

-- The end of a run of one attempt.
abbrev pub only : {W A : Type 0} → Result A × W → Option (Run W A)
only (r, w) = some (record { result = r; world = w; waits = [] })

module _ {W A : Type 0} (operation : ℕ → W → Result A × W) (delay : ℕ → ℕ) where
  run_with_retry-zero : (w : W) → run_with_retry operation 0 delay w ≡ only (operation 0 w)
  unfolding run_with_retry retry_loop handle gives_up
  run_with_retry-zero w = by_result (operation 0 w)
    where
      by_result : (p : Result A × W) → handle operation 0 delay (λ w. none) 0 [] p.0 p.1 ≡ only p
      by_result (ok a, w) = refl
      by_result (err e, w) = ground arith

module _ {W : Type 0} (host : Host W) (tool : Tool (Callable W)) (arguments : Value) where
  retry_policy-zero :
      (c : ExecutionContext)
      → tool.side_effect ≡ true
      → tool.idempotent ≡ false
      → (retry_policy c tool).attempts ≡ 0
  unfolding retry_policy
  retry_policy-zero c e i = ground arith

  -- A tool with side effects that is not idempotent is attempted once, whatever its number of
  -- retries and whatever the attempt ends with.
  pub run-attempt :
      (s : Session W)
      → tool.side_effect ≡ true
      → tool.idempotent ≡ false
      → run host tool arguments s
        ≡ only (
            attempt host tool arguments
              (tool_timeout host.tick (host.now s.world) s.context tool.timeout)
              0
              (emit s "tool.started"))
  unfolding run
  run-attempt s e i =
      let timeout = tool_timeout host.tick (host.now s.world) s.context tool.timeout in
      let delay : ℕ → ℕ = λ n. delay_for (retry_policy s.context tool) (host.draw n) n in
      ap (λ k. run_with_retry (attempt host tool arguments timeout) k delay (emit s "tool.started"))
        (retry_policy-zero s.context e i)
      ∙ run_with_retry-zero (attempt host tool arguments timeout) delay (emit s "tool.started")
