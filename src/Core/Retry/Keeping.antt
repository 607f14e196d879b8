-- ===== src/Core/Retry/Keeping.antt =====
-- What the operation keeps, the loop of coflowai/core/retry.py keeps.
use coflowai.Base.{
  ap, ◌∙◌, ℕ, zero, suc, ◌+◌, ◌≤◌, ◌≡◌, false, List, [], ◌∷◌, ◌++◌, Option, none, some, arith,
  Bool-cases, inl, inr,
}
use coflowai.Core.Errors.{Error, Result, ok, err, is_retryable}
use coflowai.Core.Retry.{Run, gives_up, handle, retry_loop, run_with_retry}

-- The loop came to an end, in a world where `P` holds.
abbrev pub Returned : {W A : Type 0} → (W → Type 0) → Option (Run W A) → Type 0
Returned P none = ⊥
Returned P (some r) = P r.world

module _ {W A : Type 0} (P : W → Type 0) (operation : ℕ → W → Result A × W) (attempts : ℕ)
    (delay_for : ℕ → ℕ) (keeps : (n : ℕ) (w : W) → P w → P (operation n w).1) where
  handle-Returned :
      (again : W → Option (Run W A)) (attempt : ℕ) (waits : List ℕ) (r : Result A) (w : W)
      → P w
      → ((e : Error)
          → gives_up operation attempts delay_for e attempt ≡ false
          → Returned P (again w))
      → Returned P (handle operation attempts delay_for again attempt waits r w)
  unfolding handle
  handle-Returned again attempt waits (ok a) w p h = p
  handle-Returned again attempt waits (err e) w p h =
      elim (Bool-cases (gives_up operation attempts delay_for e attempt)) [
        | inl g ↦ rw (g, Returned) p
        | inr g ↦ rw (g, Returned) (h e g)
      ]

  more :
      (e : Error) (attempt : ℕ)
      → gives_up operation attempts delay_for e attempt ≡ false
      → attempt + 1 ≤ attempts
  unfolding gives_up
  more e attempt g = ground arith

  retry_loop-Returned :
      (fuel attempt : ℕ) (waits : List ℕ) (w : W)
      → attempts + 1 ≤ fuel + attempt
      → attempt ≤ attempts
      → P w
      → Returned P (retry_loop operation attempts delay_for fuel attempt waits w)
  unfolding retry_loop gives_up
  retry_loop-Returned zero attempt waits w h b p = absurd (omega arith)
  retry_loop-Returned (suc fuel) attempt waits w h b p =
      let (r, w') = operation attempt w in
      let next = waits ++ delay_for (attempt + 1) ∷ [] in
      handle-Returned _ attempt waits r w' (keeps attempt w p) λ e g.
        retry_loop-Returned fuel (attempt + 1) next w' (omega arith) (more e attempt g)
          (keeps attempt w p)

  pub run_with_retry-Returned :
      (w : W) → P w → Returned P (run_with_retry operation attempts delay_for w)
  unfolding run_with_retry
  run_with_retry-Returned w p =
      retry_loop-Returned (suc attempts) 0 [] w (omega arith) (omega arith) p

-- An error of the first call that is not to be retried comes out at once.
pub run_with_retry-permanent :
    {W A : Type 0} (operation : ℕ → W → Result A × W) (attempts : ℕ) (delay_for : ℕ → ℕ) (w w' : W)
    (e : Error)
    → operation 0 w ≡ (err e, w')
    → is_retryable e ≡ false
    → run_with_retry operation attempts delay_for w
      ≡ some (record { result = err e; world = w'; waits = [] })
unfolding run_with_retry retry_loop handle gives_up
run_with_retry-permanent {A} operation attempts delay_for w w' e h p =
    ap
      (λ q.
        handle operation attempts delay_for
          (retry_loop operation attempts delay_for attempts 1 (delay_for 1 ∷ [])) 0 [] q.0 q.1)
      h
    ∙ ground arith
