-- ===== src/Core/Context/Scopes.antt =====
-- Children and parents of coflowai/core/context.py: what a child inherits and what comes back.
use coflowai.Base.{
  ℕ, ◌+◌, ◌-◌, ◌≤◌, ◌≡◌, String, Option, none, some, true, List, [], ◌∷◌, sum_by, All, arith, Value,
}
use coflowai.Policies.Permissions.{Text, allows}
use coflowai.Policies.Permissions.Algebra.{allows-intersect}
use coflowai.Core.Context.{ExecutionContext, child, merge_from, absorb, absorb_parallel}

-- The counters of `k` lie at or above those of `c`.
pub record Grew (c k : ExecutionContext) : Type 0 where
  pub step : c.step ≤ k.step
  pub model_calls : c.model_calls ≤ k.model_calls
  pub tool_calls : c.tool_calls ≤ k.tool_calls
  pub input_tokens : c.input_tokens ≤ k.input_tokens
  pub output_tokens : c.output_tokens ≤ k.output_tokens
  pub cached_tokens : c.cached_tokens ≤ k.cached_tokens
  pub cost : c.cost ≤ k.cost

-- A child whose counters only grew leaves them to its parent: after the merge each counter of the
-- parent is the child's, and nothing else of the parent has changed.
pub merge_from-Grew :
    (c k : ExecutionContext)
    → Grew c k
    → merge_from c k ≡ record c {
      step = k.step;
      model_calls = k.model_calls;
      tool_calls = k.tool_calls;
      input_tokens = k.input_tokens;
      output_tokens = k.output_tokens;
      cached_tokens = k.cached_tokens;
      cost = k.cost;
    }
unfolding merge_from
merge_from-Grew c k g = ground arith

abbrev pub gain : (ExecutionContext → ℕ) → ExecutionContext → List ExecutionContext → ℕ
gain field baseline children = sum_by (λ (k : ExecutionContext). field k - field baseline) children

-- Siblings that ran side by side from one baseline: if the counters of each only grew, the parent's
-- model calls, tool calls, tokens and cost go up by the sum of what each sibling added.
pub absorb_parallel-gain :
    (c : ExecutionContext) (children : List ExecutionContext) (baseline : ExecutionContext)
    → All (Grew baseline) children
    → ((absorb_parallel c children baseline).model_calls
        ≡ c.model_calls + gain (λ k. k.model_calls) baseline children)
      × ((absorb_parallel c children baseline).tool_calls
          ≡ c.tool_calls + gain (λ k. k.tool_calls) baseline children)
      × ((absorb_parallel c children baseline).input_tokens
          ≡ c.input_tokens + gain (λ k. k.input_tokens) baseline children)
      × ((absorb_parallel c children baseline).output_tokens
          ≡ c.output_tokens + gain (λ k. k.output_tokens) baseline children)
      × ((absorb_parallel c children baseline).cost ≡ c.cost + gain (λ k. k.cost) baseline children)
unfolding absorb_parallel absorb
absorb_parallel-gain c [] baseline g = omega arith
absorb_parallel-gain c (k ∷ ks) baseline g =
    let ih = absorb_parallel-gain (absorb baseline c k) ks baseline g.1 in
    omega (arith, ih.0, ih.1, ih.2, ih.3, ih.4, g.0)

-- A child is allowed nothing that its parent is not allowed.
pub allows-child :
    (c : ExecutionContext) (input : Option Value) (node_id agent_name : Option String)
    (permissions : Option (List Text)) (required : Option Text)
    → allows (child c input node_id agent_name permissions).permissions required ≡ true
    → allows c.permissions required ≡ true
unfolding child
allows-child c input node_id agent_name none required h = h
allows-child c input node_id agent_name (some p) required h =
    (allows-intersect c.permissions p required h).0
