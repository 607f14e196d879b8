-- ===== src/State/Store.antt =====
-- coflowai/state/store.py: `InMemoryStateStore`, with the queries of the base class `StateStore`.
-- Copies are not aliased, so `copy.deepcopy` is the identity. `list_executions` is not modelled: it
-- sorts by time stamps.
pub mod Laws
use coflowai.Base.{
  ℕ, String, Option, none, some, Bool, true, false, List, [], ◌∷◌, ◌++◌, filter, last?, contains,
  leb, not, str_eq, if◌then◌else◌,
}
use coflowai.Base.Dict
use coflowai.Base.Dict.{Dict}
use coflowai.Core.Errors.{ErrorClass, plain, Result, ok, err}
use coflowai.State.Checkpoint.{Checkpoint, ExecutionRecord}

pub record Store : Type 0 where
  pub executions : Dict ExecutionRecord
  pub checkpoints : Dict (List Checkpoint)
  pub locks : List String

abbrev pub empty_store : Store
empty_store = record { executions = []; checkpoints = []; locks = [] }

unfoldable pub save_execution : Store → ExecutionRecord → Store
save_execution s r = record s { executions = Dict.put s.executions r.execution_id r }

unfoldable pub get_execution : Store → String → Option ExecutionRecord
get_execution s id = Dict.get s.executions id

-- `self._checkpoints.get(execution_id, ())`
abbrev pub listed : Option (List Checkpoint) → List Checkpoint
listed none = []
listed (some l) = l

unfoldable pub list_checkpoints : Store → String → List Checkpoint
list_checkpoints s id = listed (Dict.get s.checkpoints id)

-- `setdefault(execution_id, []).append(stored)`
unfoldable pub save_checkpoint : Store → Checkpoint → Store
unfolding list_checkpoints
save_checkpoint s c = record s {
  checkpoints = Dict.put s.checkpoints c.execution_id (list_checkpoints s c.execution_id ++ c ∷ []);
}

unfoldable pub latest_checkpoint : Store → String → Option Checkpoint
unfolding list_checkpoints
latest_checkpoint s id = last? (list_checkpoints s id)

unfoldable pub find_checkpoint : List Checkpoint → String → Result Checkpoint
find_checkpoint [] id = err (plain ErrorClass.checkpoint_error)
find_checkpoint (c ∷ cs) id = if str_eq c.checkpoint_id id then ok c else find_checkpoint cs id

unfoldable pub get_checkpoint : Store → String → String → Result Checkpoint
unfolding list_checkpoints find_checkpoint
get_checkpoint s execution_id id = find_checkpoint (list_checkpoints s execution_id) id

unfoldable pub checkpoint_at_step : Store → String → ℕ → Option Checkpoint
unfolding list_checkpoints
checkpoint_at_step s id step = last? (filter (λ c. leb c.step step) (list_checkpoints s id))

unfoldable pub acquire_lock : Store → String → Bool × Store
acquire_lock s id =
    if contains s.locks id then (false, s) else (true, record s { locks = id ∷ s.locks })

unfoldable pub release_lock : Store → String → Store
release_lock s id = record s { locks = filter (λ l. not (str_eq l id)) s.locks }
