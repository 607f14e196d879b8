-- ===== src/Core/Types.antt =====
-- coflowai/core/types.py: the execution statuses with their state machine, the execution modes and
-- the usage counters. Costs and latencies are floats there and whole numbers of a fixed unit here.
pub mod Machine
use coflowai.Base.{ℕ, ◌+◌, List, [], ◌∷◌, Bool, any, ◌==◌}

pub data ExecutionStatus : Type 0 where
  created running waiting waiting_for_approval retrying : ExecutionStatus
  completed failed cancelled timed_out : ExecutionStatus

-- Identity of statuses, `a is b`, through a number for each.
abbrev pub rank : ExecutionStatus → ℕ
rank created = 0
rank running = 1
rank waiting = 2
rank waiting_for_approval = 3
rank retrying = 4
rank completed = 5
rank failed = 6
rank cancelled = 7
rank timed_out = 8

abbrev pub is_status : ExecutionStatus → ExecutionStatus → Bool
is_status a b = rank a == rank b

-- `status in frozenset`
abbrev pub in_statuses : ExecutionStatus → List ExecutionStatus → Bool
in_statuses s l = any (λ t. is_status t s) l

abbrev pub terminal_statuses : List ExecutionStatus
terminal_statuses = completed ∷ failed ∷ cancelled ∷ timed_out ∷ []

unfoldable pub valid_transitions : ExecutionStatus → List ExecutionStatus
valid_transitions created = running ∷ cancelled ∷ []
valid_transitions running =
    waiting ∷ waiting_for_approval ∷ retrying ∷ completed ∷ failed ∷ cancelled ∷ timed_out ∷ []
valid_transitions waiting = running ∷ cancelled ∷ timed_out ∷ []
valid_transitions waiting_for_approval = running ∷ failed ∷ cancelled ∷ timed_out ∷ []
valid_transitions retrying = running ∷ failed ∷ cancelled ∷ timed_out ∷ []
valid_transitions completed = []
valid_transitions failed = running ∷ []
valid_transitions cancelled = []
valid_transitions timed_out = []

abbrev pub resumable_statuses : List ExecutionStatus
resumable_statuses = created ∷ running ∷ waiting ∷ waiting_for_approval ∷ retrying ∷ failed ∷ []

pub data ExecutionMode : Type 0 where
  strict standard exploratory : ExecutionMode

pub record Usage : Type 0 where
  pub model_calls : ℕ
  pub tool_calls : ℕ
  pub input_tokens : ℕ
  pub output_tokens : ℕ
  pub cached_tokens : ℕ
  pub cost : ℕ
  pub duration_ms : ℕ
  pub model_latency_ms : ℕ
  pub tool_latency_ms : ℕ

abbrev pub no_usage : Usage
no_usage = record {
  model_calls = 0;
  tool_calls = 0;
  input_tokens = 0;
  output_tokens = 0;
  cached_tokens = 0;
  cost = 0;
  duration_ms = 0;
  model_latency_ms = 0;
  tool_latency_ms = 0;
}

abbrev pub total_tokens : Usage → ℕ
total_tokens u = u.input_tokens + u.output_tokens

-- The duration is not added.
unfoldable pub add : Usage → Usage → Usage
add u other = record u {
  model_calls = u.model_calls + other.model_calls;
  tool_calls = u.tool_calls + other.tool_calls;
  input_tokens = u.input_tokens + other.input_tokens;
  output_tokens = u.output_tokens + other.output_tokens;
  cached_tokens = u.cached_tokens + other.cached_tokens;
  cost = u.cost + other.cost;
  model_latency_ms = u.model_latency_ms + other.model_latency_ms;
  tool_latency_ms = u.tool_latency_ms + other.tool_latency_ms;
}
