-- ===== src/Agents/Agent.antt =====
-- coflowai/agents/agent.py: `Agent.execute`. The model gateway, the tool executor, the builder of
-- the context and the texts of prompts are arguments. Calls of tools that run side by side run one
-- after the other here, and the rest of them are cancelled when one raises. `parse` of a schema
-- reads the JSON in a text and validates it.
pub mod Loop
pub mod Output
use coflowai.Base.{
  ℕ, zero, suc, ◌+◌, String, str_eq, Option, none, some, Bool, true, false, ◌&&◌, List, [], ◌∷◌,
  ◌++◌, map, length, Value, ltb, if◌then◌else◌,
}
use coflowai.Core.Session.{Session, emit}
use coflowai.Base.Dict
use coflowai.Base.Dict.{Dict}
use coflowai.Core.Errors.{
  ErrorClass, PythonClass, Error, plain, python, Result, ok, err, is_cancelled,
}
use coflowai.Core.Messages.{ModelResponse, ToolCall, ToolResult, Message}
use coflowai.Core.Context.{ExecutionContext, child, share, merge_from, next_step, ensure_alive}
use coflowai.Core.Types.{completed}
use coflowai.Core.Result.{ExecutionResult}
use coflowai.Policies.Permissions.{Text}
use coflowai.Policies.Policy.{iteration_allowance, allows_parallel_tool_calls}

-- The agent, and what it reaches through `context.services`.
pub record Agent (W : Type 0) : Type 0 where
  pub name : String
  pub parse : Option (String → Option Value)
  pub permissions : Option (List Text)
  pub max_iterations : Option ℕ
  pub now : W → ℕ
  pub gateway : List Message → Session W → Result ModelResponse × Session W
  pub executor : ToolCall → Session W → Result ToolResult × Session W
  pub build_context : Session W → List Message → List Message
  pub render_tool_result : ToolResult → String
  pub repair_prompt : Error → String
  pub format_input : Value → String

-- The exception of a task group, and the single exception of calls in a row.
abbrev pub group_error : Bool → Error → Error
group_error false e = e
group_error true e = if is_cancelled e then e else python PythonClass.other_error

abbrev pub parsed : Option Value → Result Value
parsed none = err (plain ErrorClass.validation_error)
parsed (some v) = ok v

-- `_finalise_output`
unfoldable pub finalise_output : Option (String → Option Value) → Option String → Result Value
finalise_output none none = ok Value.null
finalise_output none (some text) = ok (Value.text text)
finalise_output (some parse) none = err (plain ErrorClass.validation_error)
finalise_output (some parse) (some text) =
    if str_eq text "" then err (plain ErrorClass.validation_error) else parsed (parse text)

abbrev pub Ended : Type 0 → Type 0 → Type 0
Ended W A = Result A × Session W

-- What follows a part that may raise.
unfoldable pub after_ok : {W A B : Type 0} → (A → Session W → Ended W B) → Ended W A → Ended W B
after_ok next (ok a, s) = next a s
after_ok next (err e, s) = (err e, s)

module _ {W : Type 0} (agent : Agent W) where
  unfoldable pub run_calls : List ToolCall → Session W → Ended W (List ToolResult)
  unfolding after_ok
  run_calls [] s = (ok [], s)
  run_calls (c ∷ cs) s =
      after_ok (λ r s. after_ok (λ rs s. (ok (r ∷ rs), s)) (run_calls cs s)) (agent.executor c s)

  abbrev pub regroup : Bool → Ended W (List ToolResult) → Ended W (List ToolResult)
  regroup parallel (ok rs, s) = (ok rs, s)
  regroup parallel (err e, s) = (err (group_error parallel e), s)

  -- `_run_tools`
  unfoldable pub run_tools : List ToolCall → Session W → Ended W (List ToolResult)
  unfolding run_calls allows_parallel_tool_calls
  run_tools calls s =
      regroup (ltb 1 (length calls) && allows_parallel_tool_calls s.context.policy)
        (run_calls calls s)

  abbrev pub or_name : Option String → String
  or_name none = agent.name
  or_name (some n) = if str_eq n "" then agent.name else n

  abbrev pub nonempty : List Message → Option (List Message) → List Message
  nonempty start none = start
  nonempty start (some []) = start
  nonempty start (some (m ∷ ms)) = m ∷ ms

  unfoldable pub load_conversation : ExecutionContext → List Message
  load_conversation c =
      nonempty (Message.user (agent.format_input c.input) ∷ [])
        (Dict.get c.state.conversations (or_name c.node_id))

  unfoldable pub save_conversation : Session W → List Message → Session W
  save_conversation s conversation = record s {
    context = record s.context {
      state = record s.context.state {
        conversations =
            Dict.put s.context.state.conversations (or_name s.context.node_id) conversation;
      };
    };
  }

  abbrev pub tool_messages : List ToolResult → List Message
  tool_messages rs =
      map (λ (r : ToolResult). Message.tool r.call_id r.name (agent.render_tool_result r)) rs

  module _ (again : (repairs : ℕ) → List Message → Session W → Ended W Value) where
    -- The end of a round whose response asks for no tool.
    unfoldable pub answer : (repairs : ℕ) → List Message → Session W → Result Value → Ended W Value
    unfolding save_conversation
    answer repairs conversation s (ok v) = (ok v, s)
    answer zero conversation s (err e) = (err e, s)
    answer (suc repairs) conversation s (err e) =
        let repaired = conversation ++ Message.user (agent.repair_prompt e) ∷ [] in
        again repairs repaired (save_conversation s repaired)

    -- What the response asks for: `conversation` ends with it.
    unfoldable pub dispatch :
        (repairs : ℕ) → List Message → Session W → Option String → List ToolCall → Ended W Value
    unfolding answer run_tools finalise_output save_conversation after_ok
    dispatch repairs conversation s text [] =
        answer repairs conversation s (finalise_output agent.parse text)
    dispatch repairs conversation s text (c ∷ cs) =
        after_ok
          (λ rs s.
            let told = conversation ++ tool_messages rs in
            again repairs told (save_conversation s told))
          (run_tools (c ∷ cs) s)

    -- A round after the call of the gateway.
    unfoldable pub respond :
        (repairs : ℕ) → List Message → ModelResponse → Session W → Ended W Value
    unfolding dispatch save_conversation
    respond repairs conversation response s =
        let asked = conversation ++ Message.assistant response.text response.tool_calls ∷ [] in
        dispatch repairs asked (save_conversation s asked) response.text response.tool_calls

  abbrev pub stepped : Session W → Ended W ℕ
  unfolding next_step
  stepped s = let (r, c) = next_step (agent.now s.world) s.context in (r, record s { context = c })

  -- The loop over the iterations, with the number that is left.
  unfoldable pub iterate : ℕ → (repairs : ℕ) → List Message → Session W → Ended W Value
  unfolding respond after_ok next_step
  iterate zero repairs conversation s = (err (plain ErrorClass.max_steps_exceeded), s)
  iterate (suc left) repairs conversation s =
      after_ok
        (λ n s.
          after_ok (respond (iterate left) repairs conversation)
            (agent.gateway (agent.build_context s conversation) s))
        (stepped s)

  abbrev pub result_of : ExecutionContext → Value → ExecutionResult
  result_of c v = record {
    execution_id = c.execution_id;
    status = completed;
    output = v;
    error = none;
    checkpoint_id = none;
  }

  -- The end of `execute`, on the context of the caller and the session of the agent.
  unfoldable pub conclude : ExecutionContext → Ended W Value → Ended W ExecutionResult
  unfolding merge_from
  conclude c (ok v, s) = (
    ok (result_of s.context v),
    record (emit s "agent.completed") { context = merge_from (share c s.context) s.context },
  )
  conclude c (err e, s) =
      if is_cancelled e
      then (err e, record s { context = record (share c s.context) { step = s.context.step } })
      else (
        err e,
        record (emit s "agent.failed") { context = merge_from (share c s.context) s.context },
      )

  abbrev pub begin : Session W → Result (Unit {0}) → Ended W ExecutionResult
  unfolding conclude iterate load_conversation iteration_allowance
  begin s (err e) = (err e, s)
  begin s (ok u) =
      let ctx = child s.context none none (some agent.name) agent.permissions in
      let started = emit (record s { context = ctx }) "agent.started" in
      conclude s.context (
        iterate (iteration_allowance ctx.policy agent.max_iterations)
          ctx.policy.structured_output_repair_attempts (load_conversation ctx) started)

  unfoldable pub execute : Session W → Ended W ExecutionResult
  unfolding conclude iterate load_conversation iteration_allowance ensure_alive child
  execute s = begin s (
      ensure_alive (agent.now s.world)
        (child s.context none none (some agent.name) agent.permissions))
