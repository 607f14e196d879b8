-- ===== src/Core/Session.antt =====
-- What the calls of models and tools change: the context, the `usage` of the services, the events that
-- are published, and the world outside. `windows` is `_rate_windows` of coflowai/tools/executor.py.
use coflowai.Base.{ℕ, zero, suc, ◌-◌, min, max, String, Option, none, some, List, [], ◌∷◌, ◌++◌}
use coflowai.Base.Dict.{Dict}
use coflowai.Core.Context.{ExecutionContext, Event, event}
use coflowai.Observability.Usage.{UsageTracker}

pub record Session (W : Type 0) : Type 0 where
  pub context : ExecutionContext
  pub windows : Dict (List ℕ)
  pub usage : UsageTracker
  pub events : List Event
  pub world : W

abbrev pub emit : {W : Type 0} → Session W → String → Session W
emit s type = record s { events = s.events ++ event s.context type ∷ [] }

-- The candidates of a timeout and their minimum; a timeout of 0 is none.
abbrev pub truthy : Option ℕ → List ℕ
truthy none = []
truthy (some zero) = []
truthy (some (suc n)) = suc n ∷ []

abbrev pub remaining : (tick now : ℕ) → Option ℕ → List ℕ
remaining tick now none = []
remaining tick now (some deadline) = max tick (deadline - now) ∷ []

abbrev pub minimum : List ℕ → Option ℕ
minimum [] = none
minimum (t ∷ ts) = some (least t ts)
  where
    least : ℕ → List ℕ → ℕ
    least t [] = t
    least t (u ∷ us) = least (min t u) us
