-- ===== src/Tests/Registries.antt =====
-- The theorems about coflowai/tools/, coflowai/models/, coflowai/observability/ and
-- coflowai/approvals/ at concrete inputs.
use coflowai.Base.{refl, none, some, true, false, List, [], ◌∷◌, Value, str_eq}
use coflowai.Base.Dict
use coflowai.Base.Dict.{Dict}
use coflowai.Core.Context.{ensure_alive}
use coflowai.Tools.Registry.{Tool}
use coflowai.Models.Registry.{RegisteredModel, ModelRegistry, select}
use coflowai.Models.Registry.Routing.{Selected, select_lem}
use coflowai.Observability.Usage.Totals.{Call, model_call, tool_call}
use coflowai.Approvals.Approval.{HumanApproval}
use coflowai.Approvals.Approval.Gate.{Gated, execute_lem}
use coflowai.Tests.Data.{context}

abbrev free_tool : Tool (Unit {0})
free_tool = record {
  name = "echo";
  permission = none;
  timeout = 30000;
  retries = 0;
  side_effect = false;
  idempotent = true;
  rate_limit_per_minute = none;
  call = tt;
}

abbrev secret_tool : Tool (Unit {0})
secret_tool = record free_tool { name = "drop"; permission = some (b'z' ∷ []) }

abbrev tools : Dict (Tool (Unit {0}))
tools = ("echo", free_tool) ∷ ("drop", secret_tool) ∷ []

abbrev small : RegisteredModel (Unit {0})
small = record {
  name = "small";
  provider = tt;
  capability = λ k. str_eq k "streaming";
  input_per_million = 1;
  output_per_million = 2;
  cached_input_per_million = 1;
  priority = 100;
  latency_hint = 5;
  fallbacks = [];
  tags = [];
}

abbrev large : RegisteredModel (Unit {0})
large = record small { name = "large"; capability = λ k. true; priority = 50 }

abbrev registry : ModelRegistry (Unit {0})
registry = record { models = ("small", small) ∷ ("large", large) ∷ []; default_name = some "small" }

select_lem_example :
    Selected
      (("vision", true) ∷ [])
      "cost"
      []
      (small ∷ large ∷ [])
      (select registry (("vision", true) ∷ []) "cost" [])
unfolding Dict.values
select_lem_example = select_lem registry (("vision", true) ∷ []) "cost" []

abbrev calls : List Call
calls = model_call "small" (some "agent") none 10 20 0 3 40 ∷ tool_call "echo" none none 5 ∷ []

abbrev gate : HumanApproval
gate = record {
  name = "gate";
  message = "sure?";
  action = none;
  approval_id = none;
  on_reject = "fail";
}

abbrev summarise : Value → Value
summarise v = v

execute_lem_example : Gated summarise gate 20 context (some "ada") none
unfolding ensure_alive Dict.get
execute_lem_example = execute_lem summarise gate 20 context (some "ada") none refl refl
