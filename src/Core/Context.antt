-- ===== src/Core/Context.antt =====
-- coflowai/core/context.py: `ExecutionContext`. The clock is the argument `now`; an event is the
-- text of its type with the step and the node at which it was emitted, and an operation returns the
-- events that it emits. A child holds the parent's `state` by reference: `share` writes it back.
pub mod Scopes
pub mod Budgets
pub mod Keeping
use coflowai.Base.{
  ℕ, zero, suc, ◌+◌, ◌-◌, max, String, Option, none, some, Bool, true, false, List, [], ◌∷◌, ltb,
  Value, str_eq, if◌then◌else◌,
}
use coflowai.Base.Dict.{Dict}
use coflowai.Core.Types.{ExecutionStatus}
use coflowai.Core.Errors.{ErrorClass, plain, Result, ok, err}
use coflowai.Policies.Permissions.{Text, intersect}
use coflowai.Policies.Policy.{
  ExecutionPolicy, Spent, ratio_leb, warn_at, utilisation, budget, check_step, check_model_call,
  check_tool_call,
}
use coflowai.State.Checkpoint.{ExecutionState}

pub record Event : Type 0 where
  pub execution_id : String
  pub type : String
  pub step : ℕ
  pub node_id : Option String
  pub sequence : ℕ

pub record ExecutionContext : Type 0 where
  pub execution_id : String
  pub input : Value
  pub state : ExecutionState
  pub metadata : Dict Value
  pub step : ℕ
  pub model_calls : ℕ
  pub tool_calls : ℕ
  pub input_tokens : ℕ
  pub output_tokens : ℕ
  pub cached_tokens : ℕ
  pub cost : ℕ
  pub policy : ExecutionPolicy
  pub permissions : List Text
  pub status : ExecutionStatus
  pub node_id : Option String
  pub agent_name : Option String
  pub started_at : ℕ
  pub deadline : Option ℕ
  pub cancelled : Bool
  pub budget_warned : Bool

-- `__post_init__`: no deadline is set where the timeout is `None` or 0.
unfoldable pub initial_deadline : Option ℕ → Option ℕ → ℕ → Option ℕ
initial_deadline (some d) timeout started = some d
initial_deadline none none started = none
initial_deadline none (some zero) started = none
initial_deadline none (some (suc t)) started = some (started + suc t)

abbrev pub total_tokens : ExecutionContext → ℕ
total_tokens c = c.input_tokens + c.output_tokens

-- `a or b` of optional texts.
abbrev pub or_text : Option String → Option String → Option String
or_text none b = b
or_text (some a) b = if str_eq a "" then b else some a

-- `b if a is None else a`; a value that is null is None too.
abbrev or_value : Option Value → Value → Value
or_value none b = b
or_value (some Value.null) b = b
or_value (some a) b = a

abbrev pub narrowed : List Text → Option (List Text) → List Text
narrowed own none = own
narrowed own (some p) = intersect own p

-- The flags `_cancelled` and `_budget_warned` are not passed on.
unfoldable pub child :
    ExecutionContext
    → (input : Option Value) → (node_id agent_name : Option String)
    → (permissions : Option (List Text)) → ExecutionContext
unfolding initial_deadline
child c input node_id agent_name permissions = record c {
  input = or_value input c.input;
  permissions = narrowed c.permissions permissions;
  node_id = or_text node_id c.node_id;
  agent_name = or_text agent_name c.agent_name;
  deadline = initial_deadline c.deadline c.policy.timeout_seconds c.started_at;
  cancelled = false;
  budget_warned = false;
}

unfoldable pub merge_from : ExecutionContext → ExecutionContext → ExecutionContext
merge_from c k = record c {
  step = max c.step k.step;
  model_calls = max c.model_calls k.model_calls;
  tool_calls = max c.tool_calls k.tool_calls;
  input_tokens = max c.input_tokens k.input_tokens;
  output_tokens = max c.output_tokens k.output_tokens;
  cached_tokens = max c.cached_tokens k.cached_tokens;
  cost = max c.cost k.cost;
}

-- What the parent reads from its `state` after a child wrote to it.
abbrev pub share : ExecutionContext → ExecutionContext → ExecutionContext
share c k = record c { state = k.state }

-- One turn of the loop of `absorb_parallel`.
unfoldable pub absorb : ExecutionContext → ExecutionContext → ExecutionContext → ExecutionContext
absorb baseline c k = record c {
  model_calls = c.model_calls + k.model_calls - baseline.model_calls;
  tool_calls = c.tool_calls + k.tool_calls - baseline.tool_calls;
  input_tokens = c.input_tokens + k.input_tokens - baseline.input_tokens;
  output_tokens = c.output_tokens + k.output_tokens - baseline.output_tokens;
  cached_tokens = c.cached_tokens + k.cached_tokens - baseline.cached_tokens;
  cost = c.cost + k.cost - baseline.cost;
  step = max c.step k.step;
}

unfoldable pub absorb_parallel :
    ExecutionContext → List ExecutionContext → (baseline : ExecutionContext) → ExecutionContext
absorb_parallel c [] baseline = c
absorb_parallel c (k ∷ ks) baseline = absorb_parallel (absorb baseline c k) ks baseline

unfoldable pub cancel : ExecutionContext → ExecutionContext
cancel c = record c { cancelled = true }

-- `self.deadline is not None and now > self.deadline`
abbrev pub is_late : Option ℕ → ℕ → Bool
is_late none now = false
is_late (some d) now = ltb d now

unfoldable pub ensure_alive : (now : ℕ) → ExecutionContext → Result (Unit {0})
ensure_alive now c =
    if c.cancelled
    then err (plain ErrorClass.execution_cancelled)
    else if is_late c.deadline now
    then err (plain ErrorClass.execution_timeout)
    else ok tt

-- The new step stays where the check of the step raises.
unfoldable pub next_step : (now : ℕ) → ExecutionContext → Result ℕ × ExecutionContext
unfolding ensure_alive
next_step now c = elim (ensure_alive now c) [
  | err e ↦ (err e, c)
  | ok u ↦ elim (check_step c.policy (c.step + 1)) [
    | err e ↦ (err e, record c { step = c.step + 1 })
    | ok v ↦ (ok (c.step + 1), record c { step = c.step + 1 })
  ]
]

abbrev pub spent : ExecutionContext → Spent
spent c = record {
  cost = c.cost;
  tokens = total_tokens c;
  model_calls = c.model_calls;
  tool_calls = c.tool_calls;
}

abbrev pub event : ExecutionContext → String → Event
event c type = record {
  execution_id = c.execution_id;
  type = type;
  step = c.step;
  node_id = c.node_id;
  sequence = 0;
}

unfoldable pub maybe_warn_budget : ExecutionContext → ExecutionContext × List Event
maybe_warn_budget c =
    if c.budget_warned
    then (c, [])
    else if ratio_leb warn_at (utilisation (budget c.policy) (spent c))
    then (record c { budget_warned = true }, event c "budget.warning" ∷ [])
    else (c, [])

-- What follows the check of a budget: its error is announced and raised again.
unfoldable pub after_check :
    ExecutionContext → Result (Unit {0}) → Result (Unit {0}) × ExecutionContext × List Event
unfolding maybe_warn_budget
after_check c (err e) = (err e, c, event c "budget.exceeded" ∷ [])
after_check c (ok u) = let (c', events) = maybe_warn_budget c in (ok tt, c', events)

-- `ensure_alive`, then the check.
unfoldable pub gated :
    Result (Unit {0})
    → Result (Unit {0})
    → ExecutionContext
    → Result (Unit {0}) × ExecutionContext × List Event
unfolding after_check
gated (err e) check c = (err e, c, [])
gated (ok u) check c = after_check c check

unfoldable pub check_model_budget :
    (now : ℕ) → ExecutionContext → Result (Unit {0}) × ExecutionContext × List Event
unfolding gated
check_model_budget now c = gated (ensure_alive now c) (check_model_call c.policy (spent c)) c

unfoldable pub check_tool_budget :
    (now : ℕ) → ExecutionContext → Result (Unit {0}) × ExecutionContext × List Event
unfolding gated
check_tool_budget now c = gated (ensure_alive now c) (check_tool_call c.policy (spent c)) c
