-- ===== src/Tests/Tools.antt =====
-- The theorems about coflowai/tools/ at concrete inputs. The world is a count of runs of the tool.
use coflowai.Base.{
  ℕ, suc, ◌+◌, ◌≤◌, ◌≡◌, refl, String, Option, none, some, true, false, [], ◌∷◌, Value, arith,
}
use coflowai.Core.Session.{Session, emit}
use coflowai.Base.Dict
use coflowai.Base.Dict.{Dict}
use coflowai.Core.Errors.{ok}
use coflowai.Observability.Usage.{new_tracker}
use coflowai.Policies.Policy.{check_tool_call, utilisation, budget}
use coflowai.Policies.Permissions.{allows}
use coflowai.Tools.Registry.{Tool}
use coflowai.Core.Messages.{ToolCall, ToolResult}
use coflowai.Tools.Calls.{Host, Callable, Answer, tool_timeout}
use coflowai.Tools.Calls.Windows.{count_in}
use coflowai.Tools.Calls.Limiting.{admitted, admitted-le}
use coflowai.Tools.Executor.{attempt, run, execute}
use coflowai.Tools.Executor.Counting.{Counts, execute-Counts}
use coflowai.Tools.Executor.Replaying.{Idle}
use coflowai.Tools.Executor.Remembering.{execute_twice}
use coflowai.Tools.Executor.Retrying.{only, run-attempt}
use coflowai.Tests.Data.{context}

abbrev host : Host ℕ
host = record {
  second = 1000;
  tick = 10;
  now = λ w. 20;
  timed = λ timeout operation w. operation w;
  draw = λ n. 0;
  stable_hash = λ texts. "key";
}

-- Pays and counts.
abbrev pay : Tool (Callable ℕ)
pay = record {
  name = "pay";
  permission = none;
  timeout = 30000;
  retries = 3;
  side_effect = true;
  idempotent = false;
  rate_limit_per_minute = some 2;
  call = record {
    validate_arguments = λ v. ok v;
    invoke = λ v n w. (ok (Value.text "paid"), suc w);
    validate_output = λ v. ok v;
  };
}

abbrev registry : Dict (Tool (Callable ℕ))
registry = ("pay", pay) ∷ []

abbrev call : ToolCall
call = record { id = "call_1"; name = "pay"; arguments = Value.null }

abbrev pub session : Session ℕ
session = record { context = context; windows = []; usage = new_tracker; events = []; world = 0 }

execute-Counts_example : Counts 2 (execute host registry none call 5 session)
execute-Counts_example = execute-Counts host registry none call 5 session

-- What the first execution leaves.
abbrev result_of : Answer ℕ → ToolResult
result_of (some (ok r, s)) = r
result_of _ = record { call_id = ""; name = ""; output = Value.null; error = none; duration_ms = 0 }

abbrev session_of : Answer ℕ → Session ℕ
session_of (some (r, s)) = s
session_of none = session

abbrev first_answer : Answer ℕ
unfolding execute
first_answer = execute host registry none call 5 session

execute_twice_example : Idle 1 (execute host registry none call 7 (session_of first_answer))
unfolding execute Dict.get check_tool_call allows utilisation budget
execute_twice_example =
    execute_twice host registry call pay refl refl none none 5 7 session (session_of first_answer)
      (session_of first_answer) (result_of first_answer) refl refl refl refl refl refl refl

run-attempt_example :
    run host pay Value.null session
    ≡ only (
        attempt host pay Value.null
          (tool_timeout 10 20 context 30000)
          0
          (emit session "tool.started"))
run-attempt_example = run-attempt host pay Value.null session refl refl

abbrev limits : String → Option ℕ
limits name = some 2

admitted-le_example :
    count_in 5
      (5 + 60)
      (admitted 60 limits "pay" [] (("pay", 5) ∷ ("pay", 6) ∷ ("pay", 7) ∷ ("pay", 70) ∷ []))
    ≤ 2
admitted-le_example =
    admitted-le 60 limits "pay" 1 refl (("pay", 5) ∷ ("pay", 6) ∷ ("pay", 7) ∷ ("pay", 70) ∷ []) 5
      (omega arith, (omega arith, (omega arith, (omega arith, tt))))
