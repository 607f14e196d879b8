-- ===== src/Workflows/Nodes/Sequencing.antt =====
-- A sequence of coflowai/workflows/node.py in two parts.
use coflowai.Base.{
  ◌≡◌, refl, true, List, [], ◌∷◌, ◌++◌, Value, some, none, if◌then◌else◌, Bool-cases, inl, inr,
}
use coflowai.Core.Errors.{Result, ok, err}
use coflowai.Core.Result.{ExecutionResult, succeeded}
use coflowai.Core.Context.{ExecutionContext, child, ensure_alive}
use coflowai.Runtime.Drive.{returned, approval, raised}
use coflowai.Workflows.Executable.{
  Services, Ended, Execute, Executable, adopt, alive_then, checked, follow,
}
use coflowai.Workflows.Nodes.{put_output, run_steps}

-- Goes on after a success, and ends as it ended otherwise.
abbrev pub after : {W : Type 0} → (ExecutionResult → Execute W) → Ended W → Ended W
after rest (returned r, c, w) = if succeeded r then rest r c w else (returned r, c, w)
after rest (approval id node_id, c, w) = (approval id node_id, c, w)
after rest (raised e, c, w) = (raised e, c, w)

module _ {W : Type 0} (services : Services W) where
  run_steps-put_output :
      (ys : List (Executable W)) (current : Value) (r : ExecutionResult) (c : ExecutionContext)
      (w : W)
      → run_steps services ys current (put_output r current) c w
        ≡ run_steps services ys current r c w
  unfolding run_steps
  run_steps-put_output [] current r c w = refl
  run_steps-put_output (y ∷ ys) current r c w = refl

  follow-after :
      (f : ExecutionResult → Execute W) (whole part : ExecutionResult → Execute W)
      → ((r : ExecutionResult) (c : ExecutionContext) (w : W)
          → succeeded r ≡ true
          → whole r c w ≡ after f (part r c w))
      → (c : ExecutionContext) (e : Ended W) → follow whole c e ≡ after f (follow part c e)
  unfolding follow
  follow-after f whole part ih c (returned r, k, w) = elim (Bool-cases (succeeded r)) [
    | inl h ↦ rw (h, if◌then◌else◌) (ih r (adopt c k) w h)
    | inr h ↦ rw (h, if◌then◌else◌) (rw (h, if◌then◌else◌) refl)
  ]
  follow-after f whole part ih c (approval id node_id, k, w) = refl
  follow-after f whole part ih c (raised e, k, w) = refl

  checked-after :
      (f : ExecutionResult → Execute W) (whole part : Execute W) (c : ExecutionContext) (w : W)
      → whole c w ≡ after f (part c w)
      → (a : Result (Unit {0}))
      → checked services whole c w a ≡ after f (checked services part c w a)
  unfolding checked
  checked-after f whole part c w h (err e) = refl
  checked-after f whole part c w h (ok u) = h

  -- The steps `xs` and then `ys` do what the steps `xs` do, and after a success of these, what the
  -- steps `ys` do with the output: as soon as a step does not succeed, no later one is run.
  pub run_steps-append :
      (xs ys : List (Executable W)) (current : Value) (r : ExecutionResult) (c : ExecutionContext)
      (w : W)
      → succeeded r ≡ true
      → run_steps services (xs ++ ys) current r c w
        ≡ after (λ r'. run_steps services ys r'.output r') (run_steps services xs current r c w)
  unfolding run_steps alive_then
  run_steps-append [] ys current r c w h =
      rw (h, if◌then◌else◌) (rw (run_steps-put_output ys current r c w) refl)
  run_steps-append (x ∷ xs) ys current r c w h =
      let rest : List (Executable W) → ExecutionResult → Execute W =
        λ l r'. run_steps services l r'.output r' in
      let body : List (Executable W) → Execute W = λ l c' w'.
        follow (rest l) c' (x.execute (child c' (some current) (some x.name) none none) w') in
      checked-after (rest ys) (body (xs ++ ys)) (body xs) c w
        (follow-after (rest ys) (rest (xs ++ ys)) (rest xs)
          (λ r' c' w' h'. run_steps-append xs ys r'.output r' c' w' h') c
          (x.execute (child c (some current) (some x.name) none none) w))
        (ensure_alive (services.now w) c)
