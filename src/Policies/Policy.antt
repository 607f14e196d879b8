-- ===== src/Policies/Policy.antt =====
-- coflowai/policies/policy.py: `RetryPolicy`, `Budget` and `ExecutionPolicy`. Delays and costs are
-- floats there and whole numbers of a fixed unit here; a ratio is a pair of numbers, compared by
-- multiplying out. `random.random()` is a draw below `draw_range` over `draw_range`.
pub mod Delays
pub mod Limits
use coflowai.Base.{
  ℕ, zero, suc, ◌+◌, ◌*◌, ◌/◌, ◌^◌, min, max, String, Bool, true, false, not, List, [], ◌∷◌, ◌++◌,
  Option, none, some, ltb, leb, ◌==◌, if◌then◌else◌, str_eq,
}
use coflowai.Core.Types.{ExecutionMode, strict, standard, exploratory}
use coflowai.Core.Errors.{ErrorClass, Error, plain, python, PythonClass, Result, ok, err}

pub record RetryPolicy : Type 0 where
  pub attempts : ℕ
  pub backoff : String
  pub base_delay : ℕ
  pub max_delay : ℕ
  pub jitter : Bool

-- `random.random()` is a multiple of 2 ** -53.
abbrev pub draw_range : ℕ
draw_range = 2 ^ 53

-- The delay before the cap; the exponent is `attempt - 1`.
unfoldable pub raw_delay : RetryPolicy → ℕ → ℕ
raw_delay p attempt =
    if str_eq p.backoff "fixed"
    then p.base_delay
    else if str_eq p.backoff "linear"
    then p.base_delay * attempt
    else p.base_delay * 2 ^ attempt / 2

-- `delay *= 0.5 + random.random() / 2`
unfoldable pub jittered : ℕ → ℕ → ℕ
jittered delay draw = delay * (draw_range + draw) / (2 * draw_range)

unfoldable pub delay_for : RetryPolicy → (draw : ℕ) → (attempt : ℕ) → ℕ
unfolding raw_delay jittered
delay_for p draw attempt =
    let delay = min (raw_delay p attempt) p.max_delay in
    if p.jitter then jittered delay draw else delay

pub record Budget : Type 0 where
  pub max_cost : Option ℕ
  pub max_tokens : Option ℕ
  pub max_model_calls : Option ℕ
  pub max_tool_calls : Option ℕ

-- What has been used, the keyword arguments of the checks.
pub record Spent : Type 0 where
  pub cost : ℕ
  pub tokens : ℕ
  pub model_calls : ℕ
  pub tool_calls : ℕ

pub record Ratio : Type 0 where
  pub used : ℕ
  pub limit : ℕ

abbrev pub ratio_leb : Ratio → Ratio → Bool
ratio_leb a b = leb (a.used * b.limit) (b.used * a.limit)

-- `if limit: ratios.append(used / limit)`
abbrev pub ratio : Option ℕ → ℕ → List Ratio
ratio none used = []
ratio (some zero) used = []
ratio (some (suc l)) used = record { used = used; limit = suc l } ∷ []

abbrev pub max_ratio : Ratio → List Ratio → Ratio
max_ratio best [] = best
max_ratio best (r ∷ rs) = max_ratio (if ratio_leb r best then best else r) rs

abbrev pub no_ratio : Ratio
no_ratio = record { used = 0; limit = 1 }

-- `max(ratios, default=0.0)`: no ratio is negative, so the fold may begin with 0.
unfoldable pub utilisation : Budget → Spent → Ratio
utilisation b s = max_ratio no_ratio (
    ratio b.max_cost s.cost
    ++ (ratio b.max_tokens s.tokens
        ++ (ratio b.max_model_calls s.model_calls ++ ratio b.max_tool_calls s.tool_calls)))

-- `warn_at: float = 0.8`
abbrev pub warn_at : Ratio
warn_at = record { used = 8; limit = 10 }

-- What the attribute `mode` can hold: a member of the enumeration, or the plain text that a dict
-- carries, which `is` tells from every member.
pub data Mode : Type 0 where
  member : ExecutionMode → Mode
  raw : String → Mode

pub record ExecutionPolicy : Type 0 where
  pub max_steps : ℕ
  pub timeout_seconds : Option ℕ
  pub max_model_calls : ℕ
  pub max_tool_calls : ℕ
  pub max_tokens : Option ℕ
  pub max_cost : Option ℕ
  pub retry_attempts : ℕ
  pub checkpoint_enabled : Bool
  pub max_concurrency : ℕ
  pub mode : Mode
  pub structured_output_repair_attempts : ℕ
  pub model_timeout_seconds : Option ℕ
  pub tool_timeout_seconds : Option ℕ
  pub retry : RetryPolicy

-- `__post_init__`, on a policy whose fields are as they were passed.
unfoldable pub post_init : ExecutionPolicy → Result ExecutionPolicy
post_init p =
    if leb p.max_steps 0
    then err (python PythonClass.value_error)
    else if not (p.retry.attempts == p.retry_attempts)
    then ok (record p { retry = record p.retry { attempts = p.retry_attempts } })
    else ok p

unfoldable pub budget : ExecutionPolicy → Budget
budget p = record {
  max_cost = p.max_cost;
  max_tokens = p.max_tokens;
  max_model_calls = some p.max_model_calls;
  max_tool_calls = some p.max_tool_calls;
}

unfoldable pub temperature_override : ExecutionPolicy → Option ℕ
temperature_override p = elim p.mode [ member strict ↦ some 0 | _ ↦ none ]

-- `requested or other`
abbrev pub or_else : Option ℕ → ℕ → ℕ
or_else none other = other
or_else (some zero) other = other
or_else (some (suc n)) other = suc n

abbrev allowance : Mode → ℕ → Option ℕ → ℕ
allowance (member exploratory) ceiling requested =
    max 1 (min ceiling (max (or_else requested 0) ceiling))
allowance (member strict) ceiling requested =
    max 1 (min (min ceiling (or_else requested ceiling)) 5)
allowance _ ceiling requested = max 1 (min ceiling (or_else requested ceiling))

unfoldable pub iteration_allowance : ExecutionPolicy → Option ℕ → ℕ
iteration_allowance p requested = allowance p.mode p.max_steps requested

unfoldable pub allows_parallel_tool_calls : ExecutionPolicy → Bool
allows_parallel_tool_calls p = elim p.mode [ member strict ↦ false | _ ↦ true ]

abbrev pub budget_exceeded : Error
budget_exceeded = plain ErrorClass.budget_exceeded

unfoldable pub check_step : ExecutionPolicy → ℕ → Result (Unit {0})
check_step p step =
    if ltb p.max_steps step then err (plain ErrorClass.max_steps_exceeded) else ok tt

-- `limit is not None and used >= limit`
abbrev pub reached : Option ℕ → ℕ → Bool
reached none used = false
reached (some limit) used = leb limit used

unfoldable pub check_shared : ExecutionPolicy → ℕ → ℕ → Result (Unit {0})
check_shared p tokens cost =
    if reached p.max_tokens tokens
    then err budget_exceeded
    else if reached p.max_cost cost
    then err budget_exceeded
    else ok tt

unfoldable pub check_model_call : ExecutionPolicy → Spent → Result (Unit {0})
unfolding check_shared
check_model_call p s =
    if leb p.max_model_calls s.model_calls
    then err budget_exceeded
    else check_shared p s.tokens s.cost

unfoldable pub check_tool_call : ExecutionPolicy → Spent → Result (Unit {0})
unfolding check_shared
check_tool_call p s =
    if leb p.max_tool_calls s.tool_calls
    then err budget_exceeded
    else check_shared p s.tokens s.cost

-- The keys of `to_dict`.
pub record PolicyDict : Type 0 where
  pub max_steps : ℕ
  pub timeout_seconds : Option ℕ
  pub max_model_calls : ℕ
  pub max_tool_calls : ℕ
  pub max_tokens : Option ℕ
  pub max_cost : Option ℕ
  pub retry_attempts : ℕ
  pub checkpoint_enabled : Bool
  pub max_concurrency : ℕ
  pub mode : String

-- `self.mode.value`: a plain text has no such attribute.
unfoldable pub mode_value : Mode → Result String
mode_value (member strict) = ok "strict"
mode_value (member standard) = ok "standard"
mode_value (member exploratory) = ok "exploratory"
mode_value (raw s) = err (python PythonClass.attribute_error)

abbrev with_mode : ExecutionPolicy → Result String → Result PolicyDict
with_mode p (err e) = err e
with_mode p (ok mode) = ok (record {
  max_steps = p.max_steps;
  timeout_seconds = p.timeout_seconds;
  max_model_calls = p.max_model_calls;
  max_tool_calls = p.max_tool_calls;
  max_tokens = p.max_tokens;
  max_cost = p.max_cost;
  retry_attempts = p.retry_attempts;
  checkpoint_enabled = p.checkpoint_enabled;
  max_concurrency = p.max_concurrency;
  mode = mode;
})

unfoldable pub to_dict : ExecutionPolicy → Result PolicyDict
unfolding mode_value
to_dict p = with_mode p (mode_value p.mode)

-- The defaults, with times in milliseconds.
abbrev pub default_retry : RetryPolicy
default_retry = record {
  attempts = 2;
  backoff = "exponential";
  base_delay = 500;
  max_delay = 30000;
  jitter = true;
}

-- `ExecutionPolicy(**d)`, as the worker builds the policy of a job.
unfoldable pub of_dict : PolicyDict → Result ExecutionPolicy
unfolding post_init
of_dict d = post_init (record {
  max_steps = d.max_steps;
  timeout_seconds = d.timeout_seconds;
  max_model_calls = d.max_model_calls;
  max_tool_calls = d.max_tool_calls;
  max_tokens = d.max_tokens;
  max_cost = d.max_cost;
  retry_attempts = d.retry_attempts;
  checkpoint_enabled = d.checkpoint_enabled;
  max_concurrency = d.max_concurrency;
  mode = raw d.mode;
  structured_output_repair_attempts = 2;
  model_timeout_seconds = some 60000;
  tool_timeout_seconds = some 30000;
  retry = default_retry;
})
