-- ===== src/Workflows/Nodes/Bounds.antt =====
-- The loop of coflowai/workflows/node.py is bounded.
use coflowai.Base.{
  ℕ, zero, suc, ◌+◌, ◌≤◌, ◌≡◌, subst, ap, String, str_append, Option, none, some, Bool, true, false,
  Value, arith, if◌then◌else◌, Bool-cases, inl, inr,
}
use coflowai.Core.Errors.{Result, ok, err}
use coflowai.Core.Result.{ExecutionResult, succeeded}
use coflowai.Core.Context.{ExecutionContext, child, ensure_alive}
use coflowai.Runtime.Drive.{returned, approval, raised}
use coflowai.Workflows.Executable.{
  Services, Ended, Execute, Executable, adopt, alive_then, checked, follow,
}
use coflowai.Workflows.Nodes.{run_rounds, until_with, until_then, loop, result_of}

abbrev execute_of : {W : Type 0} → Result (Executable W) → Execute W
execute_of (ok x) = x.execute
execute_of (err e) = λ c w. (raised e, c, w)

module _ {W : Type 0} (services : Services W) (count : W → ℕ) where
  -- What follows adds at most `m` to the count.
  abbrev pub AtMost : ℕ → Execute W → Type 0
  AtMost m rest = (c : ExecutionContext) (w : W) → count (rest c w).2 ≤ count w + m

  follow-le :
      (m : ℕ) (rest : ExecutionResult → Execute W)
      → ((r : ExecutionResult) → AtMost m (rest r))
      → (c : ExecutionContext) (e : Ended W) → count (follow rest c e).2 ≤ count e.2 + m
  unfolding follow
  follow-le m rest h c (returned r, k, w) = elim (Bool-cases (succeeded r)) [
    | inl s ↦ rw (s, if◌then◌else◌) (h r (adopt c k) w)
    | inr s ↦ rw (s, if◌then◌else◌) (omega arith)
  ]
  follow-le m rest h c (approval id node_id, k, w) = omega arith
  follow-le m rest h c (raised e, k, w) = omega arith

  checked-le :
      (m : ℕ) (rest : Execute W) (c : ExecutionContext) (w : W)
      → count (rest c w).2 ≤ count w + m
      → (a : Result (Unit {0})) → count (checked services rest c w a).2 ≤ count w + m
  unfolding checked
  checked-le m rest c w h (err e) = omega arith
  checked-le m rest c w h (ok u) = h

  -- The test of the loop leaves the count alone.
  abbrev pub IsQuiet : Option (Value → ExecutionContext → W → Result Bool × W) → Type 0
  IsQuiet none = Unit
  IsQuiet (some f) = (v : Value) (c : ExecutionContext) (w : W) → count (f v c w).1 ≡ count w

  until_with-le :
      (m : ℕ) (stop go_on : Execute W)
      → AtMost 0 stop
      → AtMost m go_on
      → (done : Result Bool) → AtMost m (until_with services stop go_on done)
  unfolding until_with
  until_with-le m stop go_on hs hg (err e) c w = omega arith
  until_with-le m stop go_on hs hg (ok true) c w = omega (arith, hs c w)
  until_with-le m stop go_on hs hg (ok false) c w = hg c w

  until_then-le :
      (until : Option (Value → ExecutionContext → W → Result Bool × W)) (m : ℕ)
      (stop go_on : Execute W) (v : Value)
      → IsQuiet until
      → AtMost 0 stop
      → AtMost m go_on
      → AtMost m (until_then services until stop go_on v)
  unfolding until_then
  until_then-le none m stop go_on v q hs hg c w = hg c w
  until_then-le (some f) m stop go_on v q hs hg c w =
      let (done, w') = f v c w in omega (arith, q v c w, until_with-le m stop go_on hs hg done c w')

  module _ (decimal : ℕ → String) (name : String) (body : Executable W)
      (until : Option (Value → ExecutionContext → W → Result Bool × W))
      (once : AtMost 1 body.execute) (quiet : IsQuiet until) where
    run_rounds-le :
        (left iteration : ℕ) (current : Value) (r : ExecutionResult)
        → AtMost left (run_rounds services decimal name body until left iteration current r)
    unfolding run_rounds alive_then
    run_rounds-le zero iteration current r c w = omega arith
    run_rounds-le (suc left) iteration current r c w =
        let rest : ExecutionResult → Execute W = λ r'.
          until_then services until (λ c' w'. (returned r', c', w'))
            (run_rounds services decimal name body until left (iteration + 1) r'.output r')
            r'.output in
        let k =
          child c (some current) (some (str_append name (str_append "#" (decimal iteration)))) none
            none in
        let round : Execute W = λ c' w'. follow rest c' (
          body.execute
            (child c' (some current) (some (str_append name (str_append "#" (decimal iteration))))
              none none)
            w') in
        let followed =
          follow-le left rest
            (λ r'.
              until_then-le until left (λ c' w'. (returned r', c', w')) _ r'.output quiet
                (λ c' w'. omega arith) (run_rounds-le left (iteration + 1) r'.output r'))
            c (body.execute k w) in
        checked-le (suc left) round c w (omega (arith, followed, once k w))
          (ensure_alive (services.now w) c)

    -- If one run of the body raises a count in the world by at most one, and the test leaves the
    -- count alone, a run of the loop raises it by at most `max_iterations`.
    pub loop-le :
        (max_iterations : ℕ) (node : Executable W)
        → loop services decimal name body until max_iterations ≡ ok node
        → (c : ExecutionContext) (w : W) → count (node.execute c w).2 ≤ count w + max_iterations
    unfolding loop
    loop-le zero node h = cc
    loop-le (suc n) node h =
        subst (AtMost (suc n)) (ap execute_of h)
          (λ c w. run_rounds-le (suc n) 1 c.input (result_of c c.input) c w)
