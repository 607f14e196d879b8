-- ===== src/Core/Retry/Bounds.antt =====
-- `run_with_retry` of coflowai/core/retry.py ends, waits at most `attempts` times, and passes on an
-- error only when a further attempt is not allowed.
use coflowai.Base.{
  ℕ, zero, suc, ◌+◌, ◌-◌, ◌≤◌, ◌<◌, true, false, List, [], ◌∷◌, ◌++◌, Option, none, some, ◌≡◌, ◌⊎◌,
  inl, inr, refl, arith, length, length-append, Bool-cases,
}
use coflowai.Core.Errors.{Error, Result, ok, err, is_cancelled, is_retryable}
use coflowai.Core.Retry.{Run, gives_up, handle, retry_loop, run_with_retry}

-- Why an error is final.
abbrev pub Final : ℕ → ℕ → Error → Type 0
Final attempts waited e = (is_cancelled e ≡ true) ⊎ (is_retryable e ≡ false) ⊎ (waited ≡ attempts)

abbrev pub Surfaced {ℓ} : {A : Type ℓ} → ℕ → ℕ → Result A → Type 0
Surfaced attempts waited (ok a) = Unit
Surfaced attempts waited (err e) = Final attempts waited e

-- The loop returned, after `attempts` waits at most, and an error came out only when it was final.
abbrev pub IsFair : {W A : Type 0} → ℕ → Option (Run W A) → Type 0
IsFair attempts none = ⊥
IsFair attempts (some run) =
    (length run.waits ≤ attempts) × Surfaced attempts (length run.waits) run.result

module _ {W A : Type 0} (operation : ℕ → W → Result A × W) (attempts : ℕ) (delay_for : ℕ → ℕ) where
  gives_up-Final :
      (e : Error) (attempt : ℕ)
      → attempt ≤ attempts
      → gives_up operation attempts delay_for e attempt ≡ true
      → Final attempts attempt e
  unfolding gives_up
  gives_up-Final e attempt h g = ground arith

  goes_on :
      (e : Error) (attempt : ℕ)
      → gives_up operation attempts delay_for e attempt ≡ false
      → attempt < attempts
  unfolding gives_up
  goes_on e attempt g = ground arith

  handle-IsFair :
      (again : W → Option (Run W A)) (attempt : ℕ) (waits : List ℕ) (r : Result A) (w : W)
      → length waits ≡ attempt
      → attempt ≤ attempts
      → ((w' : W) → attempt < attempts → IsFair attempts (again w'))
      → IsFair attempts (handle operation attempts delay_for again attempt waits r w)
  unfolding handle
  handle-IsFair again attempt waits (ok a) w l h ih = (omega arith, tt)
  handle-IsFair again attempt waits (err e) w l h ih =
      elim (Bool-cases (gives_up operation attempts delay_for e attempt)) [
        | inl g ↦ rw (g, IsFair) (omega arith, rw l (gives_up-Final e attempt h g))
        | inr g ↦ rw (g, IsFair) (ih w (goes_on e attempt g))
      ]

  loop-IsFair :
      (fuel attempt : ℕ) (waits : List ℕ) (w : W)
      → length waits ≡ attempt
      → attempt ≤ attempts
      → attempts - attempt < fuel
      → IsFair attempts (retry_loop operation attempts delay_for fuel attempt waits w)
  unfolding retry_loop
  loop-IsFair zero attempt waits w l h f = absurd (omega arith)
  loop-IsFair (suc fuel) attempt waits w l h f =
      let (r, w') = operation attempt w in
      let next = waits ++ delay_for (attempt + 1) ∷ [] in
      handle-IsFair _ attempt waits r w' l h λ w'' more.
        loop-IsFair fuel (attempt + 1) next w''
          (omega (arith, length-append waits (delay_for (attempt + 1) ∷ []))) (omega arith)
          (omega arith)

  -- `run_with_retry` returns, whatever the operation does: it waits at most `attempts` times, and an
  -- error comes out only if it is a cancellation, is not retryable, or all attempts are used.
  pub run_with_retry-IsFair :
      (w : W) → IsFair attempts (run_with_retry operation attempts delay_for w)
  unfolding run_with_retry
  run_with_retry-IsFair w = loop-IsFair (suc attempts) 0 [] w refl (omega arith) (omega arith)
