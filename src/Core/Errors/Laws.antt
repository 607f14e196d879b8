-- ===== src/Core/Errors/Laws.antt =====
-- Which errors coflowai/core/exceptions.py lets a retry policy repeat.
use coflowai.Base.{◌≡◌, true, false, arith, ◌↔◌, Bool-cases, inl, inr}
use coflowai.Core.Errors.{
  ErrorClass, PythonClass, Error, plain, wrapping, python, retryable_class, is_permanent,
  is_transport, is_retryable,
}

-- What makes an error worth a retry, by the chain of causes: no link down to the deciding one is
-- permanent, and that one is a retryable class or a transport error of Python.
pub data Transient : Error → Type 0 where
  by_class :
      {c : ErrorClass} → is_permanent c ≡ false → retryable_class c ≡ true → Transient (plain c)
  by_wrapper :
      {c : ErrorClass} {e : Error}
      → is_permanent c ≡ false
      → retryable_class c ≡ true
      → Transient (wrapping c e)
  by_cause :
      {c : ErrorClass} {e : Error} → is_permanent c ≡ false → Transient e → Transient (wrapping c e)
  by_transport : {p : PythonClass} → is_transport p ≡ true → Transient (python p)

is_retryable-Transient : (e : Error) → is_retryable e ≡ true → Transient e
unfolding is_retryable
is_retryable-Transient (plain c) h = by_class (ground arith) (ground arith)
is_retryable-Transient (python p) h = by_transport h
is_retryable-Transient (wrapping c e) h = elim (Bool-cases (retryable_class c)) [
  | inl r ↦ by_wrapper (ground arith) r
  | inr r ↦ by_cause (ground arith) (is_retryable-Transient e (ground arith))
]

Transient-is_retryable : {e : Error} → Transient e → is_retryable e ≡ true
unfolding is_retryable
Transient-is_retryable (by_class p r) = ground arith
Transient-is_retryable (by_wrapper p r) = ground arith
Transient-is_retryable (by_cause p t) = ground (arith, Transient-is_retryable t)
Transient-is_retryable (by_transport p) = p

-- `is_retryable` holds of an error exactly when, down its chain of causes, a retryable class or a
-- transport error is met before any permanent class.
pub is_retryable_iff : (e : Error) → (is_retryable e ≡ true) ↔ Transient e
is_retryable_iff e = (is_retryable-Transient e, Transient-is_retryable)

-- No wrapper makes a permanent class retryable.
pub permanent_never :
    (c : ErrorClass) (cause : Error)
    → is_permanent c ≡ true
    → is_retryable (wrapping c cause) ≡ false
unfolding is_retryable
permanent_never c cause h = ground arith
