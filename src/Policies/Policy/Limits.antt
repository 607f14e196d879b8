-- ===== src/Policies/Policy/Limits.antt =====
-- What the limits of coflowai/policies/policy.py guarantee: iteration allowances, budget checks and
-- the warning threshold.
use coflowai.Base.{
  ℕ, zero, suc, ◌*◌, ◌≤◌, ◌<◌, ◌≡◌, ◌≢◌, ◌↔◌, ◌⊎◌, inl, inr, true, List, [], ◌∷◌, ◌++◌, Option,
  none, some, leb, arith, if◌then◌else◌, Bool-cases, leb→le, le→leb,
}
use native.Mathlib.Nat.{mul-le-mul_left, mul-le-mul_right, le_of_mul-le-mul_left}
use mathlib.Core.List.{append-nil}
use coflowai.Core.Types.{strict, exploratory}
use coflowai.Core.Errors.{PythonClass, python, Result, ok, err}
use coflowai.Policies.Policy.{
  ExecutionPolicy, member, raw, PolicyDict, to_dict, of_dict, Budget, Spent, Ratio, ratio_leb,
  ratio, max_ratio, no_ratio, utilisation, warn_at, post_init, or_else, iteration_allowance,
  reached, check_model_call, check_tool_call, budget_exceeded,
}

-- A policy that `__post_init__` accepts has a positive `max_steps`, the attempts of its retry policy
-- are its `retry_attempts`, and it differs from what was passed in nothing else.
pub post_init_lem :
    (p q : ExecutionPolicy)
    → post_init p ≡ ok q
    → (0 < q.max_steps)
      × (q.retry.attempts ≡ q.retry_attempts)
      × (q ≡ record p { retry = record p.retry { attempts = p.retry_attempts } })
unfolding post_init
post_init_lem p q h = ground arith

-- A policy that was written by `to_dict` and read back by `ExecutionPolicy(**d)` keeps a plain text
-- for its mode: it is in no mode of the enumeration, and `to_dict` raises on it.
pub reload_fails :
    (p q : ExecutionPolicy) (d : PolicyDict)
    → to_dict p ≡ ok d
    → of_dict d ≡ ok q
    → (q.mode ≡ raw d.mode) × (to_dict q ≡ err (python PythonClass.attribute_error))
unfolding to_dict of_dict
reload_fails p q d h k = ground arith

-- Where `max_steps` is positive, every mode leaves an agent at least one iteration and at most
-- `max_steps`; strict mode leaves at most 5, every mode but the exploratory one no more than a
-- positive number that was asked for, and exploratory mode leaves all of `max_steps`.
pub iteration_allowance_bounds :
    (p : ExecutionPolicy) (requested : Option ℕ)
    → 0 < p.max_steps
    → (1 ≤ iteration_allowance p requested)
      × (iteration_allowance p requested ≤ p.max_steps)
      × (p.mode ≡ member strict → iteration_allowance p requested ≤ 5)
      × (p.mode ≢ member exploratory
          → iteration_allowance p requested ≤ or_else requested p.max_steps)
      × (p.mode ≡ member exploratory → iteration_allowance p requested ≡ p.max_steps)
unfolding iteration_allowance
iteration_allowance_bounds p none h = ground arith
iteration_allowance_bounds p (some zero) h = ground arith
iteration_allowance_bounds p (some (suc n)) h = ground arith

-- A limit that is set is not reached.
abbrev pub Below : Option ℕ → ℕ → Type 0
Below none used = Unit
Below (some limit) used = used < limit

abbrev gate : ℕ → ℕ → Option ℕ → ℕ → Option ℕ → ℕ → Result (Unit {0})
gate limit calls max_tokens tokens max_cost cost =
    if leb limit calls
    then err budget_exceeded
    else if reached max_tokens tokens
    then err budget_exceeded
    else if reached max_cost cost
    then err budget_exceeded
    else ok tt

gate_iff :
    (limit calls : ℕ) (max_tokens : Option ℕ) (tokens : ℕ) (max_cost : Option ℕ) (cost : ℕ)
    → (gate limit calls max_tokens tokens max_cost cost ≡ ok tt)
      ↔ ((calls < limit) × Below max_tokens tokens × Below max_cost cost)
gate_iff limit calls none tokens none cost = (λ h. (ground arith, tt, tt), λ h. ground arith)
gate_iff limit calls none tokens (some c) cost =
    (λ h. (ground arith, tt, ground arith), λ h. ground arith)
gate_iff limit calls (some t) tokens none cost =
    (λ h. (ground arith, ground arith, tt), λ h. ground arith)
gate_iff limit calls (some t) tokens (some c) cost =
    (λ h. (ground arith, ground arith, ground arith), λ h. ground arith)

-- A model call passes its check exactly when the model calls, the tokens and the cost each lie
-- strictly below their limit, where that is set; a tool call likewise, by the number of tool calls.
pub check_call_iff :
    (p : ExecutionPolicy) (s : Spent)
    → ((check_model_call p s ≡ ok tt) ↔ (
        (s.model_calls < p.max_model_calls)
        × Below p.max_tokens s.tokens
        × Below p.max_cost s.cost))
      × ((check_tool_call p s ≡ ok tt) ↔ (
          (s.tool_calls < p.max_tool_calls)
          × Below p.max_tokens s.tokens
          × Below p.max_cost s.cost))
unfolding check_model_call check_tool_call
check_call_iff p s = (
  gate_iff p.max_model_calls s.model_calls p.max_tokens s.tokens p.max_cost s.cost,
  gate_iff p.max_tool_calls s.tool_calls p.max_tokens s.tokens p.max_cost s.cost,
)

-- Eight tenths of a limit are used.
abbrev pub Warns : Ratio → Type 0
Warns r = 8 * r.limit ≤ 10 * r.used

abbrev AnyWarns : List Ratio → Type 0
AnyWarns [] = ⊥
AnyWarns (r ∷ rs) = Warns r ⊎ AnyWarns rs

abbrev Positive : List Ratio → Type 0
Positive [] = Unit
Positive (r ∷ rs) = (0 < r.limit) × Positive rs

Warns-mono : (r b : Ratio) → 0 < r.limit → r.used * b.limit ≤ b.used * r.limit → Warns r → Warns b
Warns-mono r b pos h w =
    le_of_mul-le-mul_left {k = r.limit}
      (omega (arith, mul-le-mul_right b.limit w, mul-le-mul_left 10 h)) pos

max_ratio_sound :
    (best : Ratio) (rs : List Ratio) → Warns (max_ratio best rs) → Warns best ⊎ AnyWarns rs
max_ratio_sound best [] w = inl w
max_ratio_sound best (r ∷ rs) w = elim (Bool-cases (ratio_leb r best)) [
  | inl b ↦ elim (max_ratio_sound best rs (rw (b, max_ratio) at w)) [
    | inl x ↦ inl x
    | inr y ↦ inr (inr y)
  ]
  | inr b ↦ elim (max_ratio_sound r rs (rw (b, max_ratio) at w)) [
    | inl x ↦ inr (inl x)
    | inr y ↦ inr (inr y)
  ]
]

max_ratio_complete :
    (best : Ratio) (rs : List Ratio)
    → 0 < best.limit
    → Positive rs
    → Warns best ⊎ AnyWarns rs
    → Warns (max_ratio best rs)
max_ratio_complete best [] p ps (inl w) = w
max_ratio_complete best [] p ps (inr w) = absurd w
max_ratio_complete best (r ∷ rs) p ps w = elim (Bool-cases (ratio_leb r best)) [
  | inl b ↦
      let up : Warns r → Warns best = Warns-mono r best ps.0 (leb→le _ _ b) in
      rw (b, max_ratio)
        (max_ratio_complete best rs p ps.1
          (elim w [ inl x ↦ inl x | inr (inl y) ↦ inl (up y) | inr (inr z) ↦ inr z ]))
  | inr b ↦
      let up : Warns best → Warns r = Warns-mono best r p (ground arith) in
      rw (b, max_ratio)
        (max_ratio_complete r rs ps.0 ps.1
          (elim w [ inl x ↦ inl (up x) | inr (inl y) ↦ inl y | inr (inr z) ↦ inr z ]))
]

-- A limit that is set, is not 0 and is used to eight tenths.
abbrev pub NearlyUsed : Option ℕ → ℕ → Type 0
NearlyUsed none used = ⊥
NearlyUsed (some limit) used = (0 < limit) × (8 * limit ≤ 10 * used)

abbrev ratios : Budget → Spent → List Ratio
ratios b s =
    ratio b.max_cost s.cost
    ++ (ratio b.max_tokens s.tokens
        ++ (ratio b.max_model_calls s.model_calls ++ ratio b.max_tool_calls s.tool_calls))

AnyWarns-ratio :
    (limit : Option ℕ) (used : ℕ) (rs : List Ratio)
    → AnyWarns (ratio limit used ++ rs) ↔ (NearlyUsed limit used ⊎ AnyWarns rs)
AnyWarns-ratio none used rs = (inr, elim [ inl x ↦ absurd x | inr y ↦ y ])
AnyWarns-ratio (some zero) used rs = (inr, elim [ inl x ↦ absurd (omega arith) | inr y ↦ y ])
AnyWarns-ratio (some (suc l)) used rs = (
  elim [ inl x ↦ inl (omega arith, x) | inr y ↦ inr y ],
  elim [ inl x ↦ inl (x.1) | inr y ↦ inr y ],
)

Positive-ratio :
    (limit : Option ℕ) (used : ℕ) (rs : List Ratio)
    → Positive rs
    → Positive (ratio limit used ++ rs)
Positive-ratio none used rs p = p
Positive-ratio (some zero) used rs p = p
Positive-ratio (some (suc l)) used rs p = (omega arith, p)

utilisation-Warns : (b : Budget) (s : Spent) → Warns (utilisation b s) ↔ AnyWarns (ratios b s)
unfolding utilisation
utilisation-Warns b s =
    let limits : Positive (ratios b s) = Positive-ratio b.max_cost s.cost _ (
      Positive-ratio b.max_tokens s.tokens _ (
        Positive-ratio b.max_model_calls s.model_calls _
          (rw append-nil at (Positive-ratio b.max_tool_calls s.tool_calls [] tt)))) in
    (
      λ w. elim (max_ratio_sound no_ratio (ratios b s) w) [
        | inl x ↦ absurd (omega arith)
        | inr y ↦ y
      ],
      λ w. max_ratio_complete no_ratio (ratios b s) (omega arith) limits (inr w),
    )

abbrev pub AnyNearlyUsed : Budget → Spent → Type 0
AnyNearlyUsed b s =
    NearlyUsed b.max_cost s.cost
    ⊎ (NearlyUsed b.max_tokens s.tokens
        ⊎ (NearlyUsed b.max_model_calls s.model_calls ⊎ NearlyUsed b.max_tool_calls s.tool_calls))

-- Drops the end of the row.
AnyWarns-one : (limit : Option ℕ) (used : ℕ) → AnyWarns (ratio limit used) ↔ NearlyUsed limit used
AnyWarns-one none used = (λ x. x, λ x. x)
AnyWarns-one (some zero) used = (λ x. absurd x, λ x. absurd (omega arith))
AnyWarns-one (some (suc l)) used =
    (elim [ inl x ↦ (omega arith, x) | inr y ↦ absurd y ], λ x. inl (x.1))

-- The utilisation is at least the warning threshold of 0.8 exactly when one of the cost, the tokens,
-- the model calls and the tool calls has a limit, other than 0, of which eight tenths are used.
pub utilisation_iff :
    (b : Budget) (s : Spent) → (ratio_leb warn_at (utilisation b s) ≡ true) ↔ AnyNearlyUsed b s
utilisation_iff b s =
    let cost = AnyWarns-ratio b.max_cost s.cost _ in
    let tokens = AnyWarns-ratio b.max_tokens s.tokens _ in
    let models = AnyWarns-ratio b.max_model_calls s.model_calls _ in
    let tools = AnyWarns-one b.max_tool_calls s.tool_calls in
    (
      λ h.
          let high : 8 * (utilisation b s).limit ≤ (utilisation b s).used * 10 = leb→le _ _ h in
          let w = (utilisation-Warns b s).0 (omega (arith, high)) in
          elim (cost.0 w) [
            | inl x ↦ inl x
            | inr y ↦ elim (tokens.0 y) [
              | inl x ↦ inr (inl x)
              | inr z ↦ elim (models.0 z) [
                | inl x ↦ inr (inr (inl x))
                | inr u ↦ inr (inr (inr (tools.0 u)))
              ]
            ]
          ],
      λ a.
          let under : AnyWarns (ratios b s) = elim a [
            | inl x ↦ cost.1 (inl x)
            | inr (inl x) ↦ cost.1 (inr (tokens.1 (inl x)))
            | inr (inr (inl x)) ↦ cost.1 (inr (tokens.1 (inr (models.1 (inl x)))))
            | inr (inr (inr x)) ↦ cost.1 (inr (tokens.1 (inr (models.1 (inr (tools.1 x))))))
          ] in
          let warned : Warns (utilisation b s) = (utilisation-Warns b s).1 under in
          le→leb _ _ (omega (arith, warned)),
    )
