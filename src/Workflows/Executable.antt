-- ===== src/Workflows/Executable.antt =====
-- coflowai/core/executable.py as the composite nodes use it. An executable is a record with the
-- function `execute`; the world `W` is all that lies outside the context: the stores, the events and
-- the clock, which the nodes reach through `Services`.
use coflowai.Base.{ℕ, String, Option, Bool, List, if◌then◌else◌}
use coflowai.Base.Dict.{Dict}
use coflowai.Core.Errors.{Result, ok, err}
use coflowai.Core.Result.{ExecutionResult, succeeded}
use coflowai.Core.Context.{ExecutionContext, merge_from, share, ensure_alive}
use coflowai.Policies.Permissions.{Text}
use coflowai.Runtime.Drive.{Outcome, returned, approval, raised}

pub record Services (W : Type 0) : Type 0 where
  pub now : W → ℕ
  pub emit : ExecutionContext → (type : String) → W → W
  pub create_checkpoint : ExecutionContext → (node_id reason : String) → W → W

abbrev pub Ended : Type 0 → Type 0
Ended W = Outcome × ExecutionContext × W

abbrev pub Execute : Type 0 → Type 0
Execute W = ExecutionContext → W → Ended W

-- What the compiler reads of an executable that has no parts.
pub record Leaf : Type 0 where
  pub model : Option String
  pub model_requirements : Dict Bool

-- `leaves` is what `_leaves` of the compiler finds below the executable.
pub record Executable (W : Type 0) : Type 0 where
  pub name : String
  pub required_permissions : List (Option Text)
  pub model_requirements : Dict Bool
  pub leaves : List Leaf
  pub execute : Execute W

-- The parent after a child: the state is one object that both hold, and the counters are merged.
abbrev pub adopt : ExecutionContext → ExecutionContext → ExecutionContext
unfolding merge_from
adopt c k = merge_from (share c k) k

module _ {W : Type 0} (services : Services W) where
  -- `context.ensure_alive()`, and what follows it.
  unfoldable pub checked : Execute W → ExecutionContext → W → Result (Unit {0}) → Ended W
  checked rest c w (err e) = (raised e, c, w)
  checked rest c w (ok u) = rest c w

  unfoldable pub alive_then : Execute W → Execute W
  unfolding checked ensure_alive
  alive_then rest c w = checked rest c w (ensure_alive (services.now w) c)

-- What follows the call of a part in a node that does not catch: `context.merge_from(child)`, then
-- `if not result.succeeded: return result`. An exception passes the merge by.
unfoldable pub follow :
    {W : Type 0} → (ExecutionResult → Execute W) → ExecutionContext → Ended W → Ended W
follow rest c (returned r, k, w) =
    if succeeded r then rest r (adopt c k) w else (returned r, adopt c k, w)
follow rest c (approval id node_id, k, w) = (approval id node_id, share c k, w)
follow rest c (raised e, k, w) = (raised e, share c k, w)
