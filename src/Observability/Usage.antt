-- ===== src/Observability/Usage.antt =====
-- coflowai/observability/usage.py: `UsageTracker`. The scopes are dicts whose missing keys read as
-- no usage (`defaultdict(Usage)`).
pub mod Totals
use coflowai.Base.{ℕ, String, Option, none, some, [], str_eq, if◌then◌else◌}
use coflowai.Base.Dict
use coflowai.Base.Dict.{Dict}
use coflowai.Core.Types.{Usage, no_usage, add}

pub record UsageTracker : Type 0 where
  pub total : Usage
  pub by_agent : Dict Usage
  pub by_model : Dict Usage
  pub by_tool : Dict Usage
  pub by_node : Dict Usage

abbrev pub new_tracker : UsageTracker
new_tracker = record { total = no_usage; by_agent = []; by_model = []; by_tool = []; by_node = [] }

abbrev pub or_no_usage : Option Usage → Usage
or_no_usage none = no_usage
or_no_usage (some u) = u

-- What a scope has for the key.
unfoldable pub used_by : Dict Usage → String → Usage
used_by scope key = or_no_usage (Dict.get scope key)

-- `if key: scope[key].add(_copy(usage))`
unfoldable pub add_to : Dict Usage → Option String → Usage → Dict Usage
unfolding used_by
add_to scope none usage = scope
add_to scope (some key) usage =
    if str_eq key "" then scope else Dict.put scope key (add (used_by scope key) usage)

unfoldable pub fan_out :
    UsageTracker → Usage → (agent node_id model tool : Option String) → UsageTracker
unfolding add_to
fan_out t usage agent node_id model tool = record {
  total = add t.total usage;
  by_agent = add_to t.by_agent agent usage;
  by_node = add_to t.by_node node_id usage;
  by_model = add_to t.by_model model usage;
  by_tool = add_to t.by_tool tool usage;
}

unfoldable pub model_usage : (input_tokens output_tokens cached_tokens cost latency_ms : ℕ) → Usage
model_usage i o c cost latency = record no_usage {
  model_calls = 1;
  input_tokens = i;
  output_tokens = o;
  cached_tokens = c;
  cost = cost;
  model_latency_ms = latency;
}

unfoldable pub record_model :
    UsageTracker
    → (model : String) → (agent node_id : Option String)
    → (input_tokens output_tokens cached_tokens cost latency_ms : ℕ) → UsageTracker
unfolding fan_out model_usage
record_model t model agent node_id i o c cost latency =
    fan_out t (model_usage i o c cost latency) agent node_id (some model) none

unfoldable pub tool_usage : (latency_ms : ℕ) → Usage
tool_usage latency = record no_usage { tool_calls = 1; tool_latency_ms = latency }

unfoldable pub record_tool :
    UsageTracker
    → (tool : String) → (agent node_id : Option String) → (latency_ms : ℕ) → UsageTracker
unfolding fan_out tool_usage
record_tool t tool agent node_id latency =
    fan_out t (tool_usage latency) agent node_id none (some tool)
