-- ===== src/Tests/Agents.antt =====
-- The theorems about coflowai/agents/ at concrete inputs. The world is a count of calls of the
-- model.
use coflowai.Base.{
  ℕ, suc, ◌+◌, ◌≤◌, refl, String, Option, none, some, [], Value, str_eq, if◌then◌else◌, arith,
}
use coflowai.Core.Errors.{ok}
use coflowai.Agents.Agent.{Agent, execute}
use coflowai.Agents.Agent.Loop.{execute-le}
use coflowai.Agents.Agent.Output.{Returns, execute-Returns}
use coflowai.Policies.Policy.{iteration_allowance}
use coflowai.Tests.Data.{context}
use coflowai.Tests.Tools.{session}

-- Accepts one text.
abbrev parse : String → Option Value
parse text = if str_eq text "{}" then some Value.null else none

-- Its model answers with a text that the schema refuses.
abbrev agent : Agent ℕ
agent = record {
  name = "agent";
  parse = some parse;
  permissions = none;
  max_iterations = some 3;
  now = λ w. 20;
  gateway = λ messages s. (
    ok (record {
      text = some "no";
      tool_calls = [];
      input_tokens = 5;
      output_tokens = 1;
      cached_tokens = 0;
      cost = none;
      finish_reason = none;
      model = none;
    }),
    record s { world = suc s.world },
  );
  executor = λ call s. (
    ok (record {
      call_id = call.id;
      name = call.name;
      output = Value.null;
      error = none;
      duration_ms = 1;
    }),
    s,
  );
  build_context = λ s messages. messages;
  render_tool_result = λ r. "";
  repair_prompt = λ e. "again";
  format_input = λ v. "hello";
}

execute-le_example :
    (execute agent session).1.world ≤ session.world + iteration_allowance context.policy (some 3)
execute-le_example =
    execute-le (λ w. w) agent (λ messages s. omega arith) (λ call s. omega arith) session

execute-Returns_example : Returns parse (execute agent session)
execute-Returns_example = execute-Returns parse agent refl session
