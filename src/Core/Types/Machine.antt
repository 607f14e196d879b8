-- ===== src/Core/Types/Machine.antt =====
-- The state machine of coflowai/core/types.py: which statuses an execution can reach.
use coflowai.Base.{◌≡◌, ◌⊎◌, true, arith, refl}
use coflowai.Core.Types.{
  ExecutionStatus, created, completed, cancelled, timed_out, in_statuses, valid_transitions,
  is_status,
}

-- One step of the machine.
abbrev pub Allowed : ExecutionStatus → ExecutionStatus → Type 0
Allowed s t = in_statuses t (valid_transitions s) ≡ true

pub data Reach (s : ExecutionStatus) : ExecutionStatus → Type 0 where
  here : Reach s s
  next : {t u : ExecutionStatus} → Reach s t → Allowed t u → Reach s u

pub is_status-eq : (a b : ExecutionStatus) → is_status a b ≡ true → a ≡ b
is_status-eq a b h = ground arith

abbrev pub IsFinal : ExecutionStatus → Type 0
IsFinal s = (s ≡ completed) ⊎ (s ≡ cancelled) ⊎ (s ≡ timed_out)

stuck : (s t : ExecutionStatus) → IsFinal s → Allowed s t → s ≡ t
unfolding valid_transitions
stuck created t h a = ground arith
stuck _ t h a = ground arith

-- From `completed`, `cancelled` and `timed_out` no other status is ever reached.
pub final_stays : {s t : ExecutionStatus} → IsFinal s → Reach s t → s ≡ t
final_stays h here = refl
final_stays {s} h (next {t} {u} r a) = stuck s u h (subst_allowed (final_stays h r) a)
  where
    subst_allowed : s ≡ t → Allowed t u → Allowed s u
    subst_allowed e b = ground (arith, e)
