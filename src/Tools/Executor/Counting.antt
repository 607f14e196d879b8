-- ===== src/Tools/Executor/Counting.antt =====
-- How `execute` of coflowai/tools/executor.py ends, and what it adds to the calls of the context.
use coflowai.Base.{
  ℕ, zero, suc, ◌+◌, ◌*◌, ◌++◌, ◌≡◌, refl, ap, ◌∙◌, String, Option, none, some, false, List, Value,
  arith, if◌then◌else◌, Bool-cases, inl, inr,
}
use coflowai.Core.Session.{Session, emit}
use coflowai.Base.Dict.{Dict}
use coflowai.Core.Errors.{Error, Result, ok, err}
use coflowai.Core.Context.{ExecutionContext, check_tool_budget}
use coflowai.Core.Context.Keeping.{maybe_warn_budget-same, check_tool_budget-same}
use coflowai.Core.Retry.{Run}
use coflowai.Core.Retry.Keeping.{Returned, run_with_retry-Returned}
use coflowai.Policies.Policy.{delay_for}
use coflowai.Tools.Registry.{Tool}
use coflowai.Core.Messages.{ToolCall}
use coflowai.Tools.Calls.{
  Host, Callable, Answer, is_denial_class, is_failure_class, is_of, tool_timeout, retry_policy,
  rate_limit,
}
use coflowai.Tools.Executor.{
  caught, finish, on_ok, remember_idempotent, announced, invoked, attempt, run, resolve, authorise,
  completed, serve, limited, resolved, execute,
}

-- The answer, where the context had counted `n` calls: a result, and one call more; or an error that
-- is no failure and no denial of a tool, and no call more.
abbrev pub Counts : {W : Type 0} → ℕ → Answer W → Type 0
Counts n none = ⊥
Counts n (some (ok r, s)) = s.context.tool_calls ≡ n + 1
Counts n (some (err e, s)) =
    (s.context.tool_calls ≡ n)
    × (is_of is_denial_class e ≡ false)
    × (is_of is_failure_class e ≡ false)

module _ {W : Type 0} (call : ToolCall) (duration : ℕ) (n : ℕ) where
  caught-Counts :
      (e : Error) (s : Session W)
      → s.context.tool_calls ≡ n
      → Counts n (some (caught call duration e s))
  unfolding caught
  caught-Counts e s h = elim (Bool-cases (is_of is_denial_class e)) [
    | inl d ↦ rw (d, if◌then◌else◌) (ap (λ k. k + 1) h)
    | inr d ↦ elim (Bool-cases (is_of is_failure_class e)) [
      | inl f ↦ rw (d, if◌then◌else◌) (rw (f, if◌then◌else◌) (ap (λ k. k + 1) h))
      | inr f ↦ rw (d, if◌then◌else◌) (rw (f, if◌then◌else◌) (h, d, f))
    ]
  ]

  on_ok-Counts :
      {A : Type 0} (r : Result A) (s : Session W) (next : A → Answer W)
      → s.context.tool_calls ≡ n
      → ((a : A) → Counts n (next a))
      → Counts n (on_ok call duration r s next)
  unfolding on_ok
  on_ok-Counts (ok a) s next h k = k a
  on_ok-Counts (err e) s next h k = caught-Counts e s h

  finish-Counts :
      (v : Value) (s : Session W)
      → s.context.tool_calls ≡ n
      → Counts n (some (finish call duration v s))
  unfolding finish
  finish-Counts v s h =
      maybe_warn_budget-same (λ c. c.tool_calls)
        (record s.context { tool_calls = s.context.tool_calls + 1 }) refl
      ∙ ap (λ k. k + 1) h

module _ {W : Type 0} (host : Host W) where
  module _ (tool : Tool (Callable W)) (arguments : Value) where
    invoked-context :
        (timeout : Option ℕ) (n : ℕ) (s : Session W) (alive : Result (Unit {0}))
        → (invoked host tool arguments timeout n s alive).1.context ≡ s.context
    unfolding invoked
    invoked-context timeout n s (err e) = refl
    invoked-context timeout n s (ok u) = refl

    announced-context :
        (n : ℕ) (s : Session W) → (announced host tool arguments n s).context ≡ s.context
    unfolding announced
    announced-context zero s = refl
    announced-context (suc n) s = refl

    -- An attempt leaves the context as it is.
    pub attempt-context :
        (timeout : Option ℕ) (n : ℕ) (s : Session W)
        → (attempt host tool arguments timeout n s).1.context ≡ s.context
    unfolding attempt
    attempt-context timeout n s =
        invoked-context timeout n (announced host tool arguments n s) _ ∙ announced-context n s

    -- So does a run of the tool, which comes to an end.
    pub run-context :
        (s : Session W)
        → Returned (λ (s' : Session W). s'.context ≡ s.context) (run host tool arguments s)
    unfolding run
    run-context s =
        run_with_retry-Returned (λ (s' : Session W). s'.context ≡ s.context)
          (attempt host tool arguments
            (tool_timeout host.tick (host.now s.world) s.context tool.timeout))
          _ (λ n. delay_for (retry_policy s.context tool) (host.draw n) n)
          (λ n w h. attempt-context _ n w ∙ h) (emit s "tool.started") refl

  module _ (registry : Dict (Tool (Callable W))) (allowed : Option (List String)) (call : ToolCall)
      (duration : ℕ) (n : ℕ) where
    remember_idempotent-tool_calls :
        (c : ExecutionContext) (tool : Tool (Callable W)) (v : Value)
        → (remember_idempotent host c tool call v).tool_calls ≡ c.tool_calls
    unfolding remember_idempotent
    remember_idempotent-tool_calls c tool v = ground arith

    completed-Counts :
        (tool : Tool (Callable W)) (c : ExecutionContext) (r : Option (Run (Session W) Value))
        → c.tool_calls ≡ n
        → Returned (λ (s' : Session W). s'.context ≡ c) r
        → Counts n (completed host registry allowed call duration tool r)
    unfolding completed
    completed-Counts tool c none h e = e
    completed-Counts tool c (some r) h e =
        let same : r.world.context.tool_calls ≡ n =
          ap (λ (k : ExecutionContext). k.tool_calls) e ∙ h in
        on_ok-Counts call duration n r.result r.world _ same λ raw.
          on_ok-Counts call duration n (tool.call.validate_output raw) r.world _ same λ output.
            let kept : Session W = record r.world {
              context = remember_idempotent host r.world.context tool call output;
            } in
            finish-Counts call duration n output kept
              (remember_idempotent-tool_calls r.world.context tool output ∙ same)

    serve-Counts :
        (tool : Tool (Callable W)) (arguments : Value) (s : Session W) (override hit : Option Value)
        → s.context.tool_calls ≡ n
        → Counts n (serve host registry allowed call duration tool arguments s override hit)
    unfolding serve
    serve-Counts tool arguments s (some v) hit h = finish-Counts call duration n v s h
    serve-Counts tool arguments s none (some v) h = finish-Counts call duration n v s h
    serve-Counts tool arguments s none none h =
        completed-Counts tool s.context (run host tool arguments s) h (run-context tool arguments s)

    resolved-Counts :
        (s : Session W)
        → s.context.tool_calls ≡ n
        → Counts n (resolved host registry allowed call duration s)
    unfolding resolved limited
    resolved-Counts s h =
        on_ok-Counts call duration n (resolve host registry allowed call duration) s _ h λ tool.
          on_ok-Counts call duration n
            (authorise host registry allowed call duration s.context tool) s _ h
            λ u.
              on_ok-Counts call duration n (tool.call.validate_arguments call.arguments) s _ h
                λ arguments.
                  let (a, windows) =
                    rate_limit (60 * host.second) (host.now s.world) s.windows tool.name
                      tool.rate_limit_per_minute in
                  let s' : Session W = record s { windows = windows } in
                  on_ok-Counts call duration n a s' _ h λ u. serve-Counts tool arguments s' _ _ h

  -- `execute` always answers. A failure or denial of a tool is a result and not an exception; a
  -- result, be it an output or an error, counts as one call of a tool, and an exception as none.
  pub execute-Counts :
      (registry : Dict (Tool (Callable W))) (allowed : Option (List String)) (call : ToolCall)
      (duration : ℕ) (s : Session W)
      → Counts s.context.tool_calls (execute host registry allowed call duration s)
  unfolding execute
  execute-Counts registry allowed call duration s =
      let requested = emit s "tool.requested" in
      let (checked, c, events) = check_tool_budget (host.now s.world) requested.context in
      let s' : Session W = record requested { context = c; events = requested.events ++ events } in
      on_ok-Counts call duration s.context.tool_calls checked s' _
        (check_tool_budget-same (λ c. c.tool_calls) s.context refl (host.now s.world))
        λ u.
          resolved-Counts registry allowed call duration s.context.tool_calls s'
            (check_tool_budget-same (λ c. c.tool_calls) s.context refl (host.now s.world))
