-- ===== src/Tools/Executor/Remembering.antt =====
-- The ledger of coflowai/tools/executor.py: an output that it keeps is not made twice.
use coflowai.Base.{
  ℕ, ◌+◌, ◌*◌, ◌++◌, ◌≡◌, refl, ◌∙◌, sym, subst, String, Option, none, some, Bool, true, false,
  List, Value, if◌then◌else◌, Bool-cases, inl, inr,
}
use coflowai.Core.Session.{Session, emit}
use coflowai.Base.Dict
use coflowai.Base.Dict.{Dict, get-put_self}
use coflowai.Core.Errors.{Error, Result, ok, err}
use coflowai.Core.Context.{ExecutionContext, check_tool_budget}
use coflowai.Core.Context.Keeping.{maybe_warn_budget-same, check_tool_budget-same}
use coflowai.Core.Retry.{Run}
use coflowai.Tools.Registry.{Tool}
use coflowai.Core.Messages.{ToolCall, ToolResult}
use coflowai.Tools.Calls.{
  Host, Callable, Answer, is_denial_class, is_failure_class, is_null, is_of, rate_limit,
}
use coflowai.Tools.Executor.{
  caught, finish, on_ok, key, not_null, remember_idempotent, idempotent_hit, run, resolve,
  authorise, completed, serve, limited, resolved, execute,
}
use coflowai.Tools.Executor.Replaying.{Idle, resolve-get, execute-Idle}

-- A result that is an output is in the ledger.
abbrev pub Remembers : {W : Type 0} → Host W → ToolCall → Answer W → Type 0
Remembers host call none = Unit
Remembers host call (some (err e, s)) = Unit
Remembers host call (some (ok r, s)) =
    r.error ≡ none → Dict.get s.context.state.idempotency (key host s.context call) ≡ some r.output

module _ {W : Type 0} (host : Host W) (call : ToolCall) (duration : ℕ) where
  abbrev entry : ExecutionContext → Option Value
  entry c = Dict.get c.state.idempotency (key host c call)

  caught-Remembers :
      (e : Error) (s : Session W) → Remembers host call (some (caught call duration e s))
  unfolding caught
  caught-Remembers e s = elim (Bool-cases (is_of is_denial_class e)) [
    | inl d ↦ rw (d, if◌then◌else◌) λ h. cc
    | inr d ↦ elim (Bool-cases (is_of is_failure_class e)) [
      | inl f ↦ rw (d, if◌then◌else◌) (rw (f, if◌then◌else◌) λ h. cc)
      | inr f ↦ rw (d, if◌then◌else◌) (rw (f, if◌then◌else◌) tt)
    ]
  ]

  on_ok-Remembers :
      {A : Type 0} (r : Result A) (s : Session W) (next : A → Answer W)
      → ((a : A) → r ≡ ok a → Remembers host call (next a))
      → Remembers host call (on_ok call duration r s next)
  unfolding on_ok
  on_ok-Remembers (ok a) s next k = k a refl
  on_ok-Remembers (err e) s next k = caught-Remembers e s

  finish-Remembers :
      (v : Value) (s : Session W)
      → entry s.context ≡ some v
      → Remembers host call (some (finish call duration v s))
  unfolding finish key
  finish-Remembers v s h e =
      maybe_warn_budget-same entry (record s.context { tool_calls = s.context.tool_calls + 1 }) refl
      ∙ h

  entry-remember :
      (tool : Tool (Callable W)) (c : ExecutionContext) (v : Value)
      → tool.side_effect ≡ true
      → entry (remember_idempotent host c tool call v) ≡ some v
  unfolding remember_idempotent key
  entry-remember tool c v h =
      rw (h, if◌then◌else◌) (get-put_self c.state.idempotency (key host c call) v)

  entry-hit :
      (tool : Tool (Callable W)) (c : ExecutionContext) (v : Value)
      → idempotent_hit host c tool call ≡ some v
      → entry c ≡ some v
  unfolding idempotent_hit
  entry-hit tool c v h = by_side_effect tool.side_effect (entry c) h
    where
      by_null : (x : Value) (b : Bool) → (if b then none else some x) ≡ some v → some x ≡ some v
      by_null x true h = cc
      by_null x false h = h

      by_side_effect :
          (b : Bool) (o : Option Value)
          → (if b then not_null host o else none) ≡ some v
          → o ≡ some v
      by_side_effect true (some x) h = by_null x (is_null x) h
      by_side_effect true none h = cc
      by_side_effect false o h = cc

  module _ (registry : Dict (Tool (Callable W))) (allowed : Option (List String))
      (tool : Tool (Callable W)) (effect : tool.side_effect ≡ true) where
    completed-Remembers :
        (c : ExecutionContext) (r : Option (Run (Session W) Value))
        → Remembers host call (completed host registry allowed call duration tool r)
    unfolding completed
    completed-Remembers c none = tt
    completed-Remembers c (some r) = on_ok-Remembers r.result r.world _ λ raw _.
        on_ok-Remembers (tool.call.validate_output raw) r.world _ λ output _.
          let kept : Session W = record r.world {
            context = remember_idempotent host r.world.context tool call output;
          } in
          finish-Remembers output kept (entry-remember tool r.world.context output effect)

    serve-Remembers :
        (arguments : Value) (s : Session W) (override hit : Option Value)
        → override ≡ none
        → idempotent_hit host s.context tool call ≡ hit
        → Remembers host call
            (serve host registry allowed call duration tool arguments s override hit)
    unfolding serve
    serve-Remembers arguments s (some o) hit n e = cc
    serve-Remembers arguments s none (some v) n e =
        finish-Remembers v s (entry-hit tool s.context v e)
    serve-Remembers arguments s none none n e =
        completed-Remembers s.context (run host tool arguments s)

    module _ (registered : Dict.get registry call.name ≡ some tool) where
      resolved-Remembers :
          (s : Session W)
          → Dict.get s.context.state.tool_overrides call.name ≡ none
          → Remembers host call (resolved host registry allowed call duration s)
      unfolding resolved limited
      resolved-Remembers s n =
          on_ok-Remembers (resolve host registry allowed call duration) s _ λ t e.
            on_ok-Remembers (authorise host registry allowed call duration s.context t) s _ λ u _.
              on_ok-Remembers (t.call.validate_arguments call.arguments) s _ λ arguments _.
                let (a, windows) =
                  rate_limit (60 * host.second) (host.now s.world) s.windows t.name
                    t.rate_limit_per_minute in
                let s' : Session W = record s { windows = windows } in
                let served : Tool (Callable W) → Type 0 = λ t'. Remembers host call (
                  serve host registry allowed call duration t' arguments s'
                    (Dict.get s.context.state.tool_overrides call.name)
                    (idempotent_hit host s.context t' call)) in
                on_ok-Remembers a s' _ λ u _.
                  subst served
                    (sym (resolve-get host registry allowed call duration tool t registered e))
                    (serve-Remembers arguments s' _ _ n refl)

      execute-Remembers :
          (s : Session W)
          → Dict.get s.context.state.tool_overrides call.name ≡ none
          → Remembers host call (execute host registry allowed call duration s)
      unfolding execute
      execute-Remembers s n =
          let requested = emit s "tool.requested" in
          let (checked, c, events) = check_tool_budget (host.now s.world) requested.context in
          let s' : Session W = record requested {
            context = c;
            events = requested.events ++ events;
          } in
          on_ok-Remembers checked s' _ λ u _. resolved-Remembers s' (
            check_tool_budget-same (λ c. Dict.get c.state.tool_overrides call.name) s.context refl
              (host.now s.world)
            ∙ n)

module _ {W : Type 0} (host : Host W) (registry : Dict (Tool (Callable W))) (call : ToolCall)
    (tool : Tool (Callable W)) (registered : Dict.get registry call.name ≡ some tool)
    (effect : tool.side_effect ≡ true) where
  hit-same :
      (duration : ℕ) (c d : ExecutionContext) (v : Value)
      → d.execution_id ≡ c.execution_id
      → d.node_id ≡ c.node_id
      → d.state.idempotency ≡ c.state.idempotency
      → entry host call duration c ≡ some v
      → is_null v ≡ false
      → idempotent_hit host d tool call ≡ some v
  unfolding idempotent_hit key
  hit-same duration c d v i n l h k =
      let same : entry host call duration d ≡ some v = cc in
      rw (effect, if◌then◌else◌) (rw (same, not_null) (rw (k, if◌then◌else◌) refl))

  -- The call of a tool with side effects gave an output, not by an override and not None. Executed
  -- again with the same id, in the same execution and node and with the ledger as it was left, it
  -- leaves the world alone: the tool does not run.
  pub execute_twice :
      (allowed allowed' : Option (List String)) (duration duration' : ℕ) (s s' s2 : Session W)
      (r : ToolResult)
      → Dict.get s.context.state.tool_overrides call.name ≡ none
      → execute host registry allowed call duration s ≡ some (ok r, s')
      → r.error ≡ none
      → is_null r.output ≡ false
      → s2.context.execution_id ≡ s'.context.execution_id
      → s2.context.node_id ≡ s'.context.node_id
      → s2.context.state.idempotency ≡ s'.context.state.idempotency
      → Idle s2.world (execute host registry allowed' call duration' s2)
  execute_twice allowed allowed' duration duration' s s' s2 r none_set h fine real i n l =
      let kept : Remembers host call (some (ok r, s')) =
        subst (Remembers host call) h (
          execute-Remembers host call duration registry allowed tool effect registered s
            none_set) in
      execute-Idle host registry allowed' call duration' tool r.output registered s2
        (hit-same duration s'.context s2.context r.output i n l (kept fine) real)
