-- ===== src/Core/Retry.antt =====
-- coflowai/core/retry.py: `run_with_timeout` and `run_with_retry`. The operation is a function of
-- the attempt and of a world, which comes back beside an error too. The waits are collected, as
-- `sleep` gets them.
pub mod Bounds
pub mod Keeping
use coflowai.Base.{
  ℕ, zero, suc, ◌+◌, Bool, true, false, List, [], ◌∷◌, ◌++◌, leb, not, ◌||◌, Option, none, some,
}
use coflowai.Core.Errors.{
  ErrorClass, PythonClass, Error, plain, wrapping, python, Result, ok, err, is_cancelled,
  is_retryable,
}

-- What a call leaves: its result or error, the world, and the delays that were slept.
pub record Run (W A : Type 0) : Type 0 where
  pub result : Result A
  pub world : W
  pub waits : List ℕ

-- `attempts` and `delay_for` are those of the policy. The `while True` loop takes fuel; `none` means
-- that it ran out.
module _ {W A : Type 0} (operation : ℕ → W → Result A × W) (attempts : ℕ) (delay_for : ℕ → ℕ) where
  -- The two handlers: whether the loop goes on after an error.
  unfoldable pub gives_up : Error → ℕ → Bool
  gives_up e attempt = is_cancelled e || (leb attempts attempt || not (is_retryable e))

  -- What follows one call of the operation; `again` is the next turn of the loop.
  unfoldable pub handle : (W → Option (Run W A)) → ℕ → List ℕ → Result A → W → Option (Run W A)
  handle again attempt waits (ok a) w = some (record { result = ok a; world = w; waits = waits })
  handle again attempt waits (err e) w =
      let rest = again w in
      elim (gives_up e attempt) [
        | true ↦ some (record { result = err e; world = w; waits = waits })
        | false ↦ rest
      ]

  unfoldable pub retry_loop : ℕ → ℕ → List ℕ → W → Option (Run W A)
  unfolding handle
  retry_loop zero attempt waits w = none
  retry_loop (suc fuel) attempt waits w =
      let (result, w') = operation attempt w in
      let again = retry_loop fuel (attempt + 1) (waits ++ delay_for (attempt + 1) ∷ []) in
      handle again attempt waits result w'

  unfoldable pub run_with_retry : W → Option (Run W A)
  unfolding retry_loop gives_up
  run_with_retry w = retry_loop (suc attempts) 0 [] w

-- The handler of `TimeoutError`.
abbrev pub as_timeout {ℓ} : {A : Type ℓ} → Result A → Result A
as_timeout (err (python PythonClass.timeout_error)) =
    err (wrapping ErrorClass.execution_timeout (python PythonClass.timeout_error))
as_timeout (err (python p)) = err (python p)
as_timeout (err (plain c)) = err (plain c)
as_timeout (err (wrapping c e)) = err (wrapping c e)
as_timeout (ok a) = ok a

-- `timed` runs an operation under `asyncio.timeout`, which ends it with a `TimeoutError`.
unfoldable pub run_with_timeout :
    {W A : Type 0}
    → (timed : ℕ → (W → Result A × W) → W → Result A × W) → (operation : W → Result A × W)
    → Option ℕ
    → W
    → Result A × W
run_with_timeout timed operation none w = operation w
run_with_timeout timed operation (some timeout) w =
    let (r, w') = timed timeout operation w in (as_timeout r, w')
