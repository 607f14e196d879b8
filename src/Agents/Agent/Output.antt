-- ===== src/Agents/Agent/Output.antt =====
-- What coflowai/agents/agent.py returns where the agent has a schema.
use coflowai.Base.{
  ℕ, zero, suc, ◌≡◌, refl, ap, ◌∙◌, sym, String, Option, none, some, Bool, true, false, List, [],
  ◌∷◌, ◌++◌, Value, str_eq, if◌then◌else◌, Bool-cases, inl, inr,
}
use coflowai.Core.Session.{Session, emit}
use coflowai.Core.Types.{completed}
use coflowai.Core.Errors.{ErrorClass, plain, Result, ok, err, is_cancelled}
use coflowai.Core.Messages.{ToolCall, Message}
use coflowai.Core.Result.{ExecutionResult}
use coflowai.Core.Context.{ExecutionContext, child, ensure_alive}
use coflowai.Policies.Policy.{iteration_allowance}
use coflowai.Agents.Agent.{
  Agent, Ended, after_ok, parsed, run_tools, save_conversation, finalise_output, tool_messages,
  answer, dispatch, respond, stepped, iterate, conclude, begin, execute, load_conversation,
}

-- The value is what the schema makes of some text.
abbrev pub IsRead : (String → Option Value) → Value → Type 0
IsRead parse v = (text : String) × (parse text ≡ some v)

abbrev pub Reads : {W : Type 0} → (String → Option Value) → Ended W Value → Type 0
Reads parse (ok v, s) = IsRead parse v
Reads parse (err e, s) = Unit

-- A result has status completed, and its output was read by the schema.
abbrev pub Returns : {W : Type 0} → (String → Option Value) → Ended W ExecutionResult → Type 0
Returns parse (ok r, s) = (r.status ≡ completed) × IsRead parse r.output
Returns parse (err e, s) = Unit

finalise_output-IsRead :
    (parse : String → Option Value) (text : Option String) (v : Value)
    → finalise_output (some parse) text ≡ ok v
    → IsRead parse v
unfolding finalise_output
finalise_output-IsRead parse none v h = cc
finalise_output-IsRead parse (some text) v h = by_text (str_eq text "") (parse text) refl h
  where
    by_text :
        (b : Bool) (o : Option Value)
        → parse text ≡ o
        → (if b then err (plain ErrorClass.validation_error) else parsed o) ≡ ok v
        → IsRead parse v
    by_text true o e h = cc
    by_text false none e h = cc
    by_text false (some u) e h = let same : u ≡ v = cc in (text, cc)

module _ {W : Type 0} (parse : String → Option Value) where
  after_ok-Reads :
      {A : Type 0} (next : A → Session W → Ended W Value) (e : Ended W A)
      → ((a : A) (s : Session W) → Reads parse (next a s))
      → Reads parse (after_ok next e)
  unfolding after_ok
  after_ok-Reads next (ok a, s) h = h a s
  after_ok-Reads next (err e, s) h = tt

  module _ (agent : Agent W) (schema : agent.parse ≡ some parse) where
    module _ (again : ℕ → List Message → Session W → Ended W Value)
        (ih : (repairs : ℕ) (l : List Message) (s : Session W)
          → Reads parse (again repairs l s)) where
      answer-Reads :
          (repairs : ℕ) (l : List Message) (s : Session W) (r : Result Value)
          → ((v : Value) → r ≡ ok v → IsRead parse v)
          → Reads parse (answer agent again repairs l s r)
      unfolding answer
      answer-Reads repairs l s (ok v) h = h v refl
      answer-Reads zero l s (err e) h = tt
      answer-Reads (suc repairs) l s (err e) h =
          let repaired = l ++ Message.user (agent.repair_prompt e) ∷ [] in
          ih repairs repaired (save_conversation agent s repaired)

      dispatch-Reads :
          (repairs : ℕ) (l : List Message) (s : Session W) (text : Option String)
          (calls : List ToolCall)
          → Reads parse (dispatch agent again repairs l s text calls)
      unfolding dispatch
      dispatch-Reads repairs l s text [] =
          answer-Reads repairs l s (finalise_output agent.parse text) λ v h.
            finalise_output-IsRead parse text v (ap (λ p. finalise_output p text) (sym schema) ∙ h)
      dispatch-Reads repairs l s text (c ∷ cs) =
          after_ok-Reads _ (run_tools agent (c ∷ cs) s) λ rs s'.
            let told = l ++ tool_messages agent rs in
            ih repairs told (save_conversation agent s' told)

    iterate-Reads :
        (left repairs : ℕ) (l : List Message) (s : Session W)
        → Reads parse (iterate agent left repairs l s)
    unfolding iterate respond
    iterate-Reads zero repairs l s = tt
    iterate-Reads (suc left) repairs l s =
        let next : ℕ → Session W → Ended W Value = λ n s'.
          after_ok (respond agent (iterate agent left) repairs l)
            (agent.gateway (agent.build_context s' l) s') in
        after_ok-Reads next (stepped agent s) λ n s'.
          after_ok-Reads (respond agent (iterate agent left) repairs l)
            (agent.gateway (agent.build_context s' l) s')
            λ response s''.
              let asked = l ++ Message.assistant response.text response.tool_calls ∷ [] in
              dispatch-Reads (iterate agent left) (iterate-Reads left) repairs asked
                (save_conversation agent s'' asked) response.text response.tool_calls

    conclude-Returns :
        (c : ExecutionContext) (e : Ended W Value)
        → Reads parse e
        → Returns parse (conclude agent c e)
    unfolding conclude
    conclude-Returns c (ok v, s) h = (refl, h)
    conclude-Returns c (err e, s) h = elim (Bool-cases (is_cancelled e)) [
      | inl g ↦ rw (g, if◌then◌else◌) tt
      | inr g ↦ rw (g, if◌then◌else◌) tt
    ]

    -- An agent with a schema that returns a result returns a completed one, whose output is what the
    -- schema reads in some text: a text that the schema refuses is never returned.
    pub execute-Returns : (s : Session W) → Returns parse (execute agent s)
    unfolding execute child
    execute-Returns s = by_alive (
        ensure_alive (agent.now s.world)
          (child s.context none none (some agent.name) agent.permissions))
      where
        by_alive : (r : Result (Unit {0})) → Returns parse (begin agent s r)
        by_alive (err e) = tt
        by_alive (ok u) =
            let ctx = child s.context none none (some agent.name) agent.permissions in
            let asked : Session W = record s { context = ctx } in
            conclude-Returns s.context
              (iterate agent (iteration_allowance ctx.policy agent.max_iterations)
                ctx.policy.structured_output_repair_attempts (load_conversation agent ctx)
                (emit asked "agent.started"))
              (iterate-Reads (iteration_allowance ctx.policy agent.max_iterations)
                ctx.policy.structured_output_repair_attempts (load_conversation agent ctx)
                (emit asked "agent.started"))
