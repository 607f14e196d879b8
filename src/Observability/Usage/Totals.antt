-- ===== src/Observability/Usage/Totals.antt =====
-- The scopes of coflowai/observability/usage.py add up to its total.
use coflowai.Base.{
  ℕ, ◌+◌, ◌≡◌, refl, String, Option, some, false, List, [], ◌∷◌, str_eq, if◌then◌else◌, arith,
  Bool-cases, inl, inr, sum_by,
}
use coflowai.Base.Dict
use coflowai.Base.Dict.{Dict}
use coflowai.Core.Types.{Usage, no_usage, add}
use coflowai.Observability.Usage.{
  UsageTracker, new_tracker, or_no_usage, used_by, add_to, fan_out, model_usage, tool_usage,
  record_model, record_tool,
}

-- A call that is recorded: of a model or of a tool.
pub data Call : Type 0 where
  model_call :
      (model : String) (agent node_id : Option String)
      (input_tokens output_tokens cached_tokens cost latency_ms : ℕ)
      → Call
  tool_call : (tool : String) (agent node_id : Option String) (latency_ms : ℕ) → Call

abbrev pub record_call : UsageTracker → Call → UsageTracker
record_call t (model_call m a n i o c cost l) = record_model t m a n i o c cost l
record_call t (tool_call name a n l) = record_tool t name a n l

abbrev pub record_all : UsageTracker → List Call → UsageTracker
record_all t [] = t
record_all t (c ∷ cs) = record_all (record_call t c) cs

-- The sum of a scope, by one of the counters.
abbrev pub scope_sum : (Usage → ℕ) → Dict Usage → ℕ
scope_sum field scope = sum_by (λ (p : String × Usage). field p.1) scope

-- The counter adds up over `add`, and no usage counts as 0.
pub record IsAdditive (field : Usage → ℕ) : Type 0 where
  pub zero_at : field no_usage ≡ 0
  pub adds : (u v : Usage) → field (add u v) ≡ field u + field v

module _ (field : Usage → ℕ) (additive : IsAdditive field) where
  sum-put :
      (scope : Dict Usage) (key : String) (usage : Usage)
      → scope_sum field (Dict.put scope key (add (or_no_usage (Dict.get scope key)) usage))
        ≡ scope_sum field scope + field usage
  unfolding Dict.put Dict.get
  sum-put [] key usage = omega (arith, additive.zero_at, additive.adds no_usage usage)
  sum-put ((k, u) ∷ rest) key usage = elim (Bool-cases (str_eq k key)) [
    | inl e ↦ rw (e, if◌then◌else◌) (omega (arith, additive.adds u usage))
    | inr e ↦ rw (e, if◌then◌else◌) (omega (arith, sum-put rest key usage))
  ]

  pub sum-add_to :
      (scope : Dict Usage) (key : String) (usage : Usage)
      → str_eq key "" ≡ false
      → scope_sum field (add_to scope (some key) usage) ≡ scope_sum field scope + field usage
  unfolding add_to used_by
  sum-add_to scope key usage e = rw (e, if◌then◌else◌) (sum-put scope key usage)

abbrev IsNamed : Call → Type 0
IsNamed (model_call m a n i o c cost l) = str_eq m "" ≡ false
IsNamed (tool_call name a n l) = str_eq name "" ≡ false

abbrev pub AllNamed : List Call → Type 0
AllNamed [] = Unit
AllNamed (c ∷ cs) = IsNamed c × AllNamed cs

-- The models and the tools together account for a counter of the total.
abbrev pub Balanced : (Usage → ℕ) → UsageTracker → Type 0
Balanced field t = field t.total ≡ scope_sum field t.by_model + scope_sum field t.by_tool

Balanced-call :
    (field : Usage → ℕ)
    → IsAdditive field
    → (t : UsageTracker) (c : Call) → IsNamed c
    → Balanced field t
    → Balanced field (record_call t c)
unfolding record_model record_tool fan_out
Balanced-call field additive t (model_call m a n i o c cost l) e b =
    let usage = model_usage i o c cost l in
    unfold add_to in
    omega (arith, b, additive.adds t.total usage, sum-add_to field additive t.by_model m usage e)
Balanced-call field additive t (tool_call name a n l) e b =
    let usage = tool_usage l in
    unfold add_to in
    omega (arith, b, additive.adds t.total usage, sum-add_to field additive t.by_tool name usage e)

record_all-Balanced :
    (field : Usage → ℕ)
    → IsAdditive field
    → (t : UsageTracker) (cs : List Call) → AllNamed cs
    → Balanced field t
    → Balanced field (record_all t cs)
record_all-Balanced field additive t [] e b = b
record_all-Balanced field additive t (c ∷ cs) e b =
    record_all-Balanced field additive (record_call t c) cs e.1
      (Balanced-call field additive t c e.0 b)

-- Whatever calls of models and tools with names are recorded, nothing is counted twice or lost: the
-- models and the tools together have as much input tokens, output tokens and cost as the total, and
-- as many model calls and tool calls.
pub record_all_lem :
    (calls : List Call)
    → AllNamed calls
    → Balanced (λ u. u.model_calls) (record_all new_tracker calls)
      × Balanced (λ u. u.tool_calls) (record_all new_tracker calls)
      × Balanced (λ u. u.input_tokens) (record_all new_tracker calls)
      × Balanced (λ u. u.output_tokens) (record_all new_tracker calls)
      × Balanced (λ u. u.cost) (record_all new_tracker calls)
unfolding add
record_all_lem calls e = (
  record_all-Balanced (λ u. u.model_calls) (record { zero_at = refl; adds = λ u v. refl })
      new_tracker calls e refl,
  record_all-Balanced (λ u. u.tool_calls) (record { zero_at = refl; adds = λ u v. refl })
      new_tracker calls e refl,
  record_all-Balanced (λ u. u.input_tokens) (record { zero_at = refl; adds = λ u v. refl })
      new_tracker calls e refl,
  record_all-Balanced (λ u. u.output_tokens) (record { zero_at = refl; adds = λ u v. refl })
      new_tracker calls e refl,
  record_all-Balanced (λ u. u.cost) (record { zero_at = refl; adds = λ u v. refl }) new_tracker
      calls e refl,
)
