-- ===== src/Core/Errors.antt =====
-- coflowai/core/exceptions.py: the error model. An exception is a class of the framework, perhaps
-- with the `cause` that it wraps, or an exception of Python. Messages and details are not modelled.
pub mod Laws
use coflowai.Base.{Bool, true, false, ◌≡◌, refl, ◌⊎◌, inl, inr}

-- The classes of the framework that are raised, `ApprovalRequired` of approvals/approval.py too.
pub data ErrorClass : Type 0 where
  co_flow_ai_error configuration_error plugin_error execution_error : ErrorClass
  execution_cancelled execution_timeout max_steps_exceeded budget_exceeded : ErrorClass
  workflow_error compilation_error agent_error model_error model_unavailable : ErrorClass
  rate_limit_error tool_error tool_not_found tool_timeout permission_denied : ErrorClass
  validation_error approval_rejected checkpoint_error approval_required : ErrorClass

-- `TimeoutError` and `ConnectionError` are subclasses of `OSError`; `cancelled_error` is asyncio's,
-- a `BaseException` that is no `Exception`.
pub data PythonClass : Type 0 where
  timeout_error connection_error os_error value_error key_error type_error : PythonClass
  attribute_error cancelled_error other_error : PythonClass

pub data Error : Type 0 where
  plain : ErrorClass → Error
  wrapping : ErrorClass → Error → Error
  python : PythonClass → Error

-- The class attribute `retryable`.
unfoldable pub retryable_class : ErrorClass → Bool
retryable_class ErrorClass.model_unavailable = true
retryable_class ErrorClass.rate_limit_error = true
retryable_class ErrorClass.tool_timeout = true
retryable_class ErrorClass.validation_error = true
retryable_class _ = false

-- The first `isinstance` test of `is_retryable`.
unfoldable pub is_permanent : ErrorClass → Bool
is_permanent ErrorClass.permission_denied = true
is_permanent ErrorClass.budget_exceeded = true
is_permanent ErrorClass.max_steps_exceeded = true
is_permanent ErrorClass.approval_rejected = true
is_permanent ErrorClass.execution_cancelled = true
is_permanent ErrorClass.compilation_error = true
is_permanent ErrorClass.configuration_error = true
is_permanent ErrorClass.execution_timeout = true
is_permanent _ = false

unfoldable pub is_transport : PythonClass → Bool
is_transport PythonClass.timeout_error = true
is_transport PythonClass.connection_error = true
is_transport PythonClass.os_error = true
is_transport _ = false

unfoldable pub is_retryable : Error → Bool
unfolding retryable_class is_permanent is_transport
is_retryable (plain c) = elim (is_permanent c) [ true ↦ false | false ↦ retryable_class c ]
is_retryable (wrapping c cause) =
    let rest = is_retryable cause in
    elim (is_permanent c) [
      | true ↦ false
      | false ↦ elim (retryable_class c) [ true ↦ true | false ↦ rest ]
    ]
is_retryable (python p) = is_transport p

-- `except asyncio.CancelledError` comes first in every handler of the framework.
abbrev pub is_cancelled : Error → Bool
is_cancelled (python PythonClass.cancelled_error) = true
is_cancelled _ = false

-- `isinstance(error, ConfigurationError)`
abbrev pub is_configuration : Error → Bool
is_configuration (plain ErrorClass.configuration_error) = true
is_configuration (wrapping ErrorClass.configuration_error _) = true
is_configuration _ = false

pub data Result {ℓ} (A : Type ℓ) : Type ℓ where
  ok : A → Result A
  err : Error → Result A

pub Result-cases {ℓ} :
    {A : Type ℓ} (r : Result A) → ((a : A) × (r ≡ ok a)) ⊎ ((e : Error) × (r ≡ err e))
Result-cases (ok a) = inl (a, refl)
Result-cases (err e) = inr (e, refl)
