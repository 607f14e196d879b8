-- ===== src/Runtime/Runs/Restoring.antt =====
-- A checkpoint that coflowai/runtime/runtime.py makes of a context, and the context that `resume`
-- makes of it.
use coflowai.Base.{ℕ, ◌≡◌, refl, ◌∙◌, String, Option, some, true, List, eq_refl, if◌then◌else◌}
use coflowai.Core.Context.{ExecutionContext}
use coflowai.Policies.Permissions.{Text}
use coflowai.Policies.Policy.{ExecutionPolicy}
use coflowai.State.Checkpoint.{Checkpoint, ExecutionRecord}
use coflowai.State.Store.{latest_checkpoint}
use coflowai.State.Store.Laws.{latest_checkpoint-save_checkpoint}
use coflowai.Runtime.Runtime.{Runtime, checkpoint_of, create_checkpoint, publish}
use coflowai.Runtime.Runs.{restored}

-- The parts of a context that a resumed execution goes on with.
pub record Continues (c after : ExecutionContext) : Type 0 where
  pub execution_id : after.execution_id ≡ c.execution_id
  pub state : after.state ≡ c.state
  pub step : after.step ≡ c.step
  pub model_calls : after.model_calls ≡ c.model_calls
  pub tool_calls : after.tool_calls ≡ c.tool_calls
  pub input_tokens : after.input_tokens ≡ c.input_tokens
  pub output_tokens : after.output_tokens ≡ c.output_tokens
  pub cost : after.cost ≡ c.cost

module _ {E : Type 0} (c : ExecutionContext) (node_id : Option String) (reason ckpt : String)
    (rt : Runtime E) where
  latest-create_checkpoint :
      c.policy.checkpoint_enabled ≡ true
      → latest_checkpoint (create_checkpoint c node_id reason ckpt rt).1.store c.execution_id
        ≡ some (checkpoint_of c node_id reason ckpt)
  unfolding create_checkpoint publish
  latest-create_checkpoint enabled =
      rw (enabled, if◌then◌else◌)
        (latest_checkpoint-save_checkpoint rt.store (checkpoint_of c node_id reason ckpt)
            c.execution_id
          ∙ rw (eq_refl c.execution_id) refl)

  -- Where checkpoints are enabled, a checkpoint of a context is the one that `resume` then finds,
  -- and the context restored from it goes on with the same state, step, calls, tokens and cost,
  -- whatever policy, permissions and time it gets; the count of cached tokens alone starts from 0
  -- again.
  pub restored-create_checkpoint :
      (r : ExecutionRecord) (policy : ExecutionPolicy) (permissions : List Text) (now : ℕ)
      → c.policy.checkpoint_enabled ≡ true
      → (k : Checkpoint) × (latest_checkpoint
            (create_checkpoint c node_id reason ckpt rt).1.store
            c.execution_id
          ≡ some k)
        × Continues c (restored c.execution_id k r policy permissions now)
        × ((restored c.execution_id k r policy permissions now).cached_tokens ≡ 0)
  unfolding restored
  restored-create_checkpoint r policy permissions now enabled = (
    checkpoint_of c node_id reason ckpt,
    latest-create_checkpoint enabled,
    record {
      execution_id = refl;
      state = refl;
      step = refl;
      model_calls = refl;
      tool_calls = refl;
      input_tokens = refl;
      output_tokens = refl;
      cost = refl;
    },
    refl,
  )
