-- ===== src/Agents/Agent/Loop.antt =====
-- The loop of coflowai/agents/agent.py is bounded.
use coflowai.Base.{
  ℕ, zero, suc, ◌+◌, ◌≤◌, String, Option, none, some, Bool, List, [], ◌∷◌, ◌++◌, Value, arith,
  if◌then◌else◌, Bool-cases, inl, inr,
}
use coflowai.Core.Session.{Session, emit}
use coflowai.Core.Errors.{Result, ok, err, is_cancelled}
use coflowai.Core.Messages.{ModelResponse, ToolCall, ToolResult, Message}
use coflowai.Core.Context.{ExecutionContext, child, ensure_alive}
use coflowai.Policies.Policy.{iteration_allowance}
use coflowai.Agents.Agent.{
  Agent, Ended, after_ok, run_calls, regroup, run_tools, save_conversation, finalise_output,
  tool_messages, answer, dispatch, respond, stepped, iterate, conclude, begin, execute,
  load_conversation,
}

module _ {W : Type 0} (count : W → ℕ) where
  after_ok-le :
      {A B : Type 0} (m k : ℕ) (next : A → Session W → Ended W B) (e : Ended W A)
      → ((a : A) (s : Session W) → count (next a s).1.world ≤ count s.world + m)
      → count e.1.world ≤ k
      → count (after_ok next e).1.world ≤ k + m
  unfolding after_ok
  after_ok-le m k next (ok a, s) h l = omega (arith, h a s)
  after_ok-le m k next (err e, s) h l = omega arith

  module _ (agent : Agent W)
      (once : (messages : List Message) (s : Session W)
        → count (agent.gateway messages s).1.world ≤ count s.world + 1)
      (quiet : (call : ToolCall) (s : Session W)
        → count (agent.executor call s).1.world ≤ count s.world) where
    run_calls-le :
        (calls : List ToolCall) (s : Session W)
        → count (run_calls agent calls s).1.world ≤ count s.world + 0
    unfolding run_calls
    run_calls-le [] s = omega arith
    run_calls-le (c ∷ cs) s =
        after_ok-le 0 (count s.world) _ (agent.executor c s)
          (λ r s.
            after_ok-le 0 (count s.world) _ (run_calls agent cs s) (λ rs s. omega arith)
              (omega (arith, run_calls-le cs s)))
          (quiet c s)

    regroup-le :
        (b : Bool) (e : Ended W (List ToolResult))
        → count (regroup agent b e).1.world ≤ count e.1.world
    regroup-le b (ok rs, s) = omega arith
    regroup-le b (err e, s) = omega arith

    run_tools-le :
        (calls : List ToolCall) (s : Session W)
        → count (run_tools agent calls s).1.world ≤ count s.world
    unfolding run_tools
    run_tools-le calls s =
        omega (arith, regroup-le _ (run_calls agent calls s), run_calls-le calls s)

    module _ (m : ℕ) (again : ℕ → List Message → Session W → Ended W Value)
        (ih : (repairs : ℕ) (l : List Message) (s : Session W)
          → count (again repairs l s).1.world ≤ count s.world + m) where
      answer-le :
          (repairs : ℕ) (l : List Message) (s : Session W) (r : Result Value)
          → count (answer agent again repairs l s r).1.world ≤ count s.world + m
      unfolding answer save_conversation
      answer-le repairs l s (ok v) = omega arith
      answer-le zero l s (err e) = omega arith
      answer-le (suc repairs) l s (err e) =
          let repaired = l ++ Message.user (agent.repair_prompt e) ∷ [] in
          ih repairs repaired (save_conversation agent s repaired)

      dispatch-le :
          (repairs : ℕ) (l : List Message) (s : Session W) (text : Option String)
          (calls : List ToolCall)
          → count (dispatch agent again repairs l s text calls).1.world ≤ count s.world + m
      unfolding dispatch
      dispatch-le repairs l s text [] = answer-le repairs l s (finalise_output agent.parse text)
      dispatch-le repairs l s text (c ∷ cs) =
          after_ok-le m (count s.world) _ (run_tools agent (c ∷ cs) s)
            (λ rs s'.
              let told = l ++ tool_messages agent rs in
              ih repairs told (save_conversation agent s' told))
            (run_tools-le (c ∷ cs) s)

      respond-le :
          (repairs : ℕ) (l : List Message) (response : ModelResponse) (s : Session W)
          → count (respond agent again repairs l response s).1.world ≤ count s.world + m
      unfolding respond
      respond-le repairs l response s =
          let asked = l ++ Message.assistant response.text response.tool_calls ∷ [] in
          dispatch-le repairs asked (save_conversation agent s asked) response.text
            response.tool_calls

    iterate-le :
        (left repairs : ℕ) (l : List Message) (s : Session W)
        → count (iterate agent left repairs l s).1.world ≤ count s.world + left
    unfolding iterate
    iterate-le zero repairs l s = omega arith
    iterate-le (suc left) repairs l s =
        let next : ℕ → Session W → Ended W Value = λ n s'.
          after_ok (respond agent (iterate agent left) repairs l)
            (agent.gateway (agent.build_context s' l) s') in
        let round : (n : ℕ) (s' : Session W)
            → count (next n s').1.world ≤ count s'.world + (left + 1) =
          λ n s'. omega (
            arith,
            after_ok-le left (count s'.world + 1) (respond agent (iterate agent left) repairs l)
                (agent.gateway (agent.build_context s' l) s')
                (respond-le left (iterate agent left) (iterate-le left) repairs l)
                (once (agent.build_context s' l) s'),
          ) in
        omega
          (arith, after_ok-le (left + 1) (count s.world) next (stepped agent s) round (omega arith))

    conclude-le :
        (c : ExecutionContext) (e : Ended W Value)
        → count (conclude agent c e).1.world ≤ count e.1.world
    unfolding conclude
    conclude-le c (ok v, s) = omega arith
    conclude-le c (err e, s) = elim (Bool-cases (is_cancelled e)) [
      | inl h ↦ rw (h, if◌then◌else◌) (omega arith)
      | inr h ↦ rw (h, if◌then◌else◌) (omega arith)
    ]

    -- Where the gateway raises a count in the world by at most one, and the tools do not raise it,
    -- a run of the agent raises it by at most the allowance of iterations.
    pub execute-le :
        (s : Session W)
        → count (execute agent s).1.world
          ≤ count s.world + iteration_allowance s.context.policy agent.max_iterations
    unfolding execute child
    execute-le s = by_alive (
        ensure_alive (agent.now s.world)
          (child s.context none none (some agent.name) agent.permissions))
      where
        by_alive :
            (r : Result (Unit {0}))
            → count (begin agent s r).1.world
              ≤ count s.world + iteration_allowance s.context.policy agent.max_iterations
        by_alive (err e) = omega arith
        by_alive (ok u) =
            let ctx = child s.context none none (some agent.name) agent.permissions in
            let asked : Session W = record s { context = ctx } in
            let started = emit asked "agent.started" in
            let left = iteration_allowance ctx.policy agent.max_iterations in
            let repairs = ctx.policy.structured_output_repair_attempts in
            let l = load_conversation agent ctx in
            omega (
              arith,
              conclude-le s.context (iterate agent left repairs l started),
              iterate-le left repairs l started,
            )
