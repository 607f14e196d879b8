-- ===== src/Tools/Calls.antt =====
-- coflowai/tools/executor.py: the data of a call of a tool, the rate limit, the errors, the timeout
-- and the retry policy.
pub mod Windows
pub mod Limiting
use coflowai.Base.{
  ℕ, zero, suc, ◌+◌, ◌-◌, String, Option, none, some, Bool, true, false, not, ◌&&◌, List, [], ◌∷◌,
  ◌++◌, length, contains, Value, leb, ltb, if◌then◌else◌,
}
use coflowai.Core.Session.{Session, truthy, remaining, minimum}
use coflowai.Base.Dict
use coflowai.Base.Dict.{Dict}
use coflowai.Core.Errors.{ErrorClass, PythonClass, Error, plain, wrapping, python, Result, ok, err}
use coflowai.Core.Messages.{ToolResult}
use coflowai.Core.Context.{ExecutionContext}
use coflowai.Policies.Policy.{RetryPolicy, default_retry}
use coflowai.Tools.Registry.{Tool, get}

-- What a tool does, in a world `W`: its function takes the attempt too, as the sandbox does.
pub record Callable (W : Type 0) : Type 0 where
  pub validate_arguments : Value → Result Value
  pub invoke : Value → (attempt : ℕ) → W → Result Value × W
  pub validate_output : Value → Result Value

-- The clock, with a second and a hundredth of a second in its unit; `asyncio.timeout`; the random
-- draw of a delay; and the hash of a tuple of texts.
pub record Host (W : Type 0) : Type 0 where
  pub second : ℕ
  pub tick : ℕ
  pub now : W → ℕ
  pub timed : ℕ → (W → Result Value × W) → W → Result Value × W
  pub draw : ℕ → ℕ
  pub stable_hash : List String → String

abbrev pub tool_error : Error
tool_error = plain ErrorClass.tool_error

abbrev pub is_null : Value → Bool
is_null Value.null = true
is_null _ = false

abbrev pub or_no_times : Option (List ℕ) → List ℕ
or_no_times none = []
or_no_times (some l) = l

-- The times of a window that are at most a minute ago: the others are popped from the left.
unfoldable pub recent : (minute now : ℕ) → List ℕ → List ℕ
recent minute now [] = []
recent minute now (t ∷ ts) = if ltb minute (now - t) then recent minute now ts else t ∷ ts

-- `_rate_limit`
unfoldable pub rate_limit :
    (minute now : ℕ) → Dict (List ℕ) → String → Option ℕ → Result (Unit {0}) × Dict (List ℕ)
unfolding recent
rate_limit minute now windows name none = (ok tt, windows)
rate_limit minute now windows name (some zero) = (ok tt, windows)
rate_limit minute now windows name (some (suc n)) =
    let window = recent minute now (or_no_times (Dict.get windows name)) in
    if leb (suc n) (length window)
    then (err tool_error, Dict.put windows name window)
    else (ok tt, Dict.put windows name (window ++ now ∷ []))

-- `_resolve`
abbrev pub in_allowed : Option (List String) → String → Bool
in_allowed none name = true
in_allowed (some l) name = contains l name

-- The three handlers of `execute`: ToolNotFound and ToolTimeout are tool errors.
abbrev pub is_denial_class : ErrorClass → Bool
is_denial_class ErrorClass.permission_denied = true
is_denial_class _ = false

abbrev pub is_failure_class : ErrorClass → Bool
is_failure_class ErrorClass.tool_error = true
is_failure_class ErrorClass.tool_not_found = true
is_failure_class ErrorClass.tool_timeout = true
is_failure_class ErrorClass.validation_error = true
is_failure_class _ = false

unfoldable pub is_of : (ErrorClass → Bool) → Error → Bool
is_of test (plain c) = test c
is_of test (wrapping c e) = test c
is_of test (python p) = false

-- The handlers in `attempt`: a timeout becomes one of the tool, and an exception that is not of the
-- framework becomes the cause of a tool error.
abbrev pub translated : Error → Error
translated (plain ErrorClass.execution_timeout) =
    wrapping ErrorClass.tool_timeout (plain ErrorClass.execution_timeout)
translated (plain c) = plain c
translated (wrapping ErrorClass.execution_timeout e) =
    wrapping ErrorClass.tool_timeout (wrapping ErrorClass.execution_timeout e)
translated (wrapping c e) = wrapping c e
translated (python PythonClass.cancelled_error) = python PythonClass.cancelled_error
translated (python p) = wrapping ErrorClass.tool_error (python p)

abbrev pub translate : Result Value → Result Value
translate (ok v) = ok v
translate (err e) = err (translated e)

unfoldable pub tool_timeout : (tick now : ℕ) → ExecutionContext → (timeout : ℕ) → Option ℕ
tool_timeout tick now c timeout =
    minimum (
      truthy (some timeout)
      ++ truthy c.policy.tool_timeout_seconds
      ++ remaining tick now c.deadline)

-- `_retry_policy`
unfoldable pub retry_policy : {F : Type 0} → ExecutionContext → Tool F → RetryPolicy
retry_policy c tool =
    if tool.side_effect && not tool.idempotent
    then record default_retry { attempts = 0 }
    else record c.policy.retry { attempts = tool.retries }

-- What an execution of a call ends with; `none` means that the fuel of the retry loop ran out.
abbrev pub Answer : Type 0 → Type 0
Answer W = Option (Result ToolResult × Session W)
