-- ===== src/Tools/Executor.antt =====
-- coflowai/tools/executor.py: `ToolExecutor`. The checks of arguments and outputs by pydantic, the
-- function of a tool with its sandbox, and the timer of asyncio are arguments. A retry is announced
-- at the start of the attempt that it announces. Redaction, metrics and traces are left out.
pub mod Counting
pub mod Replaying
pub mod Remembering
pub mod Retrying
use coflowai.Base.{
  ℕ, zero, suc, ◌+◌, ◌-◌, ◌*◌, String, Option, none, some, List, [], ◌∷◌, ◌++◌, Value, str_eq,
  if◌then◌else◌,
}
use coflowai.Core.Session.{Session, emit}
use coflowai.Base.Dict
use coflowai.Base.Dict.{Dict}
use coflowai.Core.Errors.{ErrorClass, Error, plain, Result, ok, err}
use coflowai.Core.Context.{ExecutionContext, ensure_alive, check_tool_budget, maybe_warn_budget}
use coflowai.Core.Retry.{Run, run_with_retry, run_with_timeout}
use coflowai.Policies.Permissions.{allows}
use coflowai.Policies.Policy.{delay_for}
use coflowai.Observability.Usage.{record_tool}
use coflowai.Tools.Registry.{Tool, get}
use coflowai.Core.Messages.{ToolCall, ToolResult}
use coflowai.Tools.Calls.{
  Host, Callable, Answer, is_null, rate_limit, in_allowed, is_denial_class, is_failure_class, is_of,
  translate, tool_timeout, retry_policy,
}

module _ {W : Type 0} where
  -- `_failure`, after the event of the handler.
  abbrev pub failure : ToolCall → Error → (duration : ℕ) → Session W → Result ToolResult × Session W
  failure call e duration s = (
    ok (record {
      call_id = call.id;
      name = call.name;
      output = Value.null;
      error = some e;
      duration_ms = duration;
    }),
    record s { context = record s.context { tool_calls = s.context.tool_calls + 1 } },
  )

  -- The handlers of `execute`.
  unfoldable pub caught :
      ToolCall → (duration : ℕ) → Error → Session W → Result ToolResult × Session W
  unfolding is_of
  caught call duration e s =
      if is_of is_denial_class e
      then failure call e duration (emit s "tool.denied")
      else if is_of is_failure_class e
      then failure call e duration (emit s "tool.failed")
      else (err e, s)

  -- `_finish`
  unfoldable pub finish :
      ToolCall → (duration : ℕ) → Value → Session W → Result ToolResult × Session W
  unfolding maybe_warn_budget record_tool
  finish call duration output s =
      let counted = record s.context { tool_calls = s.context.tool_calls + 1 } in
      let usage = record_tool s.usage call.name s.context.agent_name s.context.node_id duration in
      let (c, warned) = maybe_warn_budget counted in
      let done : Session W = record s { context = c; usage = usage; events = s.events ++ warned } in
      (
        ok (record {
          call_id = call.id;
          name = call.name;
          output = output;
          error = none;
          duration_ms = duration;
        }),
        emit done "tool.completed",
      )

  -- A step of `execute` that raises, or goes on.
  unfoldable pub on_ok :
      {A : Type 0} → ToolCall → (duration : ℕ) → Result A → Session W → (A → Answer W) → Answer W
  unfolding caught
  on_ok call duration (err e) s next = some (caught call duration e s)
  on_ok call duration (ok a) s next = next a

module _ {W : Type 0} (host : Host W) where
  -- `_key`
  abbrev pub or_dash : Option String → String
  or_dash none = "-"
  or_dash (some n) = if str_eq n "" then "-" else n

  unfoldable pub key : ExecutionContext → ToolCall → String
  key c call = host.stable_hash (c.execution_id ∷ or_dash c.node_id ∷ call.id ∷ [])

  -- `cached is not None`: an output that is `None` is no hit.
  abbrev pub not_null : Option Value → Option Value
  not_null none = none
  not_null (some v) = if is_null v then none else some v

  unfoldable pub idempotent_hit : ExecutionContext → Tool (Callable W) → ToolCall → Option Value
  unfolding key
  idempotent_hit c tool call =
      if tool.side_effect then not_null (Dict.get c.state.idempotency (key c call)) else none

  unfoldable pub remember_idempotent :
      ExecutionContext → Tool (Callable W) → ToolCall → Value → ExecutionContext
  unfolding key
  remember_idempotent c tool call output =
      if tool.side_effect
      then record c {
        state = record c.state { idempotency = Dict.put c.state.idempotency (key c call) output };
      }
      else c

  module _ (tool : Tool (Callable W)) (arguments : Value) where
    -- The part of `attempt` after `ensure_alive`.
    unfoldable pub invoked :
        Option ℕ → (attempt : ℕ) → Session W → Result (Unit {0}) → Result Value × Session W
    unfolding run_with_timeout
    invoked timeout attempt s (err e) = (err e, s)
    invoked timeout attempt s (ok u) =
        let (r, w) =
          run_with_timeout host.timed (tool.call.invoke arguments attempt) timeout s.world in
        (translate r, record s { world = w })

    unfoldable pub announced : (attempt : ℕ) → Session W → Session W
    announced zero s = s
    announced (suc n) s = emit s "tool.retrying"

    unfoldable pub attempt : Option ℕ → ℕ → Session W → Result Value × Session W
    unfolding invoked announced ensure_alive
    attempt timeout n s =
        let s' = announced n s in invoked timeout n s' (ensure_alive (host.now s'.world) s'.context)

    unfoldable pub run : Session W → Option (Run (Session W) Value)
    unfolding attempt run_with_retry tool_timeout retry_policy delay_for
    run s =
        let policy = retry_policy s.context tool in
        let timeout = tool_timeout host.tick (host.now s.world) s.context tool.timeout in
        run_with_retry (attempt timeout) policy.attempts (λ n. delay_for policy (host.draw n) n)
          (emit s "tool.started")

  module _ (registry : Dict (Tool (Callable W))) (allowed : Option (List String)) (call : ToolCall)
      (duration : ℕ) where
    -- `_resolve`
    unfoldable pub resolve : Result (Tool (Callable W))
    unfolding get
    resolve =
        if in_allowed allowed call.name
        then get registry call.name
        else err (plain ErrorClass.tool_not_found)

    -- `_authorise`
    unfoldable pub authorise : ExecutionContext → Tool (Callable W) → Result (Unit {0})
    authorise c tool =
        if allows c.permissions tool.permission
        then ok tt
        else err (plain ErrorClass.permission_denied)

    -- What follows the run of the tool.
    unfoldable pub completed : Tool (Callable W) → Option (Run (Session W) Value) → Answer W
    unfolding on_ok finish remember_idempotent
    completed tool none = none
    completed tool (some r) = on_ok call duration r.result r.world λ raw.
        on_ok call duration (tool.call.validate_output raw) r.world λ output. some (
          finish call duration output
            (record r.world { context = remember_idempotent r.world.context tool call output }))

    -- The step after the rate limit: an override, an output of the ledger, or the tool itself.
    unfoldable pub serve :
        Tool (Callable W) → Value → Session W → (override hit : Option Value) → Answer W
    unfolding run completed finish
    serve tool arguments s (some v) hit = some (finish call duration v s)
    serve tool arguments s none (some v) = some (finish call duration v s)
    serve tool arguments s none none = completed tool (run tool arguments s)

    unfoldable pub limited : Tool (Callable W) → Value → Session W → Answer W
    unfolding rate_limit on_ok serve idempotent_hit
    limited tool arguments s =
        let (r, windows) =
          rate_limit (60 * host.second) (host.now s.world) s.windows tool.name
            tool.rate_limit_per_minute in
        let s' : Session W = record s { windows = windows } in
        on_ok call duration r s' λ u.
          serve tool arguments s' (Dict.get s.context.state.tool_overrides call.name)
            (idempotent_hit s.context tool call)

    -- From `_resolve` on.
    unfoldable pub resolved : Session W → Answer W
    unfolding resolve authorise on_ok limited
    resolved s = on_ok call duration resolve s λ tool.
        on_ok call duration (authorise s.context tool) s λ u.
          on_ok call duration (tool.call.validate_arguments call.arguments) s
            λ arguments. limited tool arguments s

    unfoldable pub execute : Session W → Answer W
    unfolding resolved on_ok check_tool_budget
    execute s =
        let requested = emit s "tool.requested" in
        let (checked, c, events) = check_tool_budget (host.now s.world) requested.context in
        let s' : Session W = record requested {
          context = c;
          events = requested.events ++ events;
        } in
        on_ok call duration checked s' λ u. resolved s'
