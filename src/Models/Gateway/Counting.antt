-- ===== src/Models/Gateway/Counting.antt =====
-- What `call` of coflowai/models/gateway.py adds to the counters of the context.
use coflowai.Base.{
  ℕ, zero, suc, ◌+◌, ◌≡◌, refl, ap, ◌∙◌, sym, subst, String, Option, none, some, Bool, not, ◌||◌,
  List, [], ◌∷◌, ◌++◌, arith, str_eq, if◌then◌else◌, Bool-cases, inl, inr,
}
use coflowai.Base.Dict.{Dict}
use coflowai.Core.Errors.{Result, ok, err, is_cancelled, is_retryable}
use coflowai.Core.Messages.{ModelResponse, Override}
use coflowai.Core.Context.{ExecutionContext, check_model_budget, total_tokens}
use coflowai.Core.Context.Keeping.{maybe_warn_budget-same, check_model_budget-same}
use coflowai.Core.Retry.{Run, run_with_retry}
use coflowai.Core.Retry.Keeping.{Returned, run_with_retry-Returned}
use coflowai.Core.Session.{Session, emit}
use coflowai.Policies.Policy.{delay_for}
use coflowai.Models.Registry.{RegisteredModel, ModelRegistry, resolve}
use coflowai.Models.Gateway.{
  ModelRequest, Provider, ModelHost, Answer, cost_or, account, warned, apply_override, generated,
  announced, attempt, finished, called, call_one, failover, try_chain, fallbacks, request_from,
  by_override, by_budget, call, last_name, override_for, priced, prepared, estimate,
}

-- What an answer has counted, beside a context before it: a response is one call and states its cost,
-- which is added; an error leaves the calls, the cost and the tokens.
abbrev pub Counts : {W : Type 0} → ExecutionContext → Answer W → Type 0
Counts c none = ⊥
Counts c (some (ok r, s)) =
    (s.context.model_calls ≡ c.model_calls + 1)
    × (cost : ℕ) × (r.cost ≡ some cost)
    × (s.context.cost ≡ c.cost + cost)
Counts c (some (err e, s)) =
    (s.context.model_calls ≡ c.model_calls)
    × (s.context.cost ≡ c.cost)
    × (total_tokens s.context ≡ total_tokens c)

-- The counters of two contexts agree.
abbrev pub Same : ExecutionContext → ExecutionContext → Type 0
Same c d = (d.model_calls ≡ c.model_calls) × (d.cost ≡ c.cost) × (total_tokens d ≡ total_tokens c)

module _ {W : Type 0} (host : ModelHost W) (latency : ℕ) where
  module _ (m : RegisteredModel (Provider W)) (request : ModelRequest) where
    generated-context :
        (s : Session W) (alive : Result (Unit {0}))
        → (generated host latency m request s alive).1.context ≡ s.context
    unfolding generated
    generated-context s (err e) = refl
    generated-context s (ok u) = refl

    announced-context :
        (n : ℕ) (s : Session W) → (announced host latency m request n s).context ≡ s.context
    unfolding announced
    announced-context zero s = refl
    announced-context (suc n) s = refl

    attempt-context :
        (n : ℕ) (s : Session W) → (attempt host latency m request n s).1.context ≡ s.context
    unfolding attempt
    attempt-context n s =
        generated-context (announced host latency m request n s) _ ∙ announced-context n s

    pub finished-Counts :
        (c : ExecutionContext) (r : Result ModelResponse) (s : Session W)
        → Same c s.context
        → Counts c (some (finished host latency m request r s))
    unfolding finished account warned estimate
    finished-Counts c (ok r) s h =
        let paid = account m r latency s in
        (
          maybe_warn_budget-same (λ c. c.model_calls) paid.context refl ∙ ap (λ k. k + 1) h.0,
          cost_or r.cost (estimate m r.input_tokens r.output_tokens r.cached_tokens),
          refl,
          maybe_warn_budget-same (λ c. c.cost) paid.context refl
              ∙ ap (λ k. k + cost_or (priced m r).cost 0) h.1,
        )
    finished-Counts c (err e) s h = elim (Bool-cases (is_cancelled e)) [
      | inl g ↦ rw (g, if◌then◌else◌) h
      | inr g ↦ rw (g, if◌then◌else◌) h
    ]

    called-Counts :
        (c d : ExecutionContext) (r : Option (Run (Session W) ModelResponse))
        → Same c d
        → Returned (λ (s : Session W). s.context ≡ d) r
        → Counts c (called host latency m request r)
    unfolding called
    called-Counts c d none h e = e
    called-Counts c d (some run) h e =
        finished-Counts c run.result run.world (subst (Same c) (sym e) h)

    call_one-Counts :
        (c : ExecutionContext) (s : Session W)
        → Same c s.context
        → Counts c (call_one host latency m request s)
    unfolding call_one
    call_one-Counts c s h =
        let policy = s.context.policy.retry in
        let run =
          run_with_retry (attempt host latency m request) policy.attempts
            (λ n. delay_for policy (host.draw n) n) s in
        called-Counts c s.context run h (
          run_with_retry-Returned (λ (s' : Session W). s'.context ≡ s.context)
            (attempt host latency m request) policy.attempts (λ n. delay_for policy (host.draw n) n)
            (λ n w e. attempt-context n w ∙ e) s refl)

  module _ (request : ModelRequest) (last : String) (c : ExecutionContext) where
    failover-Counts :
        (name : String) (next : Session W → Answer W) (a : Answer W)
        → ((s : Session W) → Same c s.context → Counts c (next s))
        → Counts c a
        → Counts c (failover host latency request last name next a)
    unfolding failover
    failover-Counts name next none ih h = h
    failover-Counts name next (some (ok r, s)) ih h = h
    failover-Counts name next (some (err e, s)) ih h =
        elim (Bool-cases (is_cancelled e || (not (is_retryable e) || str_eq name last))) [
          | inl g ↦ rw (g, if◌then◌else◌) h
          | inr g ↦ rw (g, if◌then◌else◌) (ih (emit s "model.failed") h)
        ]

    try_chain-Counts :
        (ms : List (RegisteredModel (Provider W))) (s : Session W)
        → Same c s.context
        → Counts c (try_chain host latency request last ms s)
    unfolding try_chain
    try_chain-Counts [] s h = h
    try_chain-Counts (m ∷ ms) s h =
        failover-Counts m.name (try_chain host latency request last ms)
          (call_one host latency m (record request { model = some m.name }) s) (try_chain-Counts ms)
          (call_one-Counts m (record request { model = some m.name }) c s h)

  module _ (registry : ModelRegistry (Provider W)) (request : ModelRequest) where
    request_from-Counts :
        (c : ExecutionContext) (r : Result (RegisteredModel (Provider W))) (s : Session W)
        → Same c s.context
        → Counts c (request_from host latency registry request r s)
    unfolding request_from
    request_from-Counts c (err e) s h = h
    request_from-Counts c (ok m) s h =
        let rest = fallbacks host latency registry m.fallbacks in
        try_chain-Counts (prepared host latency registry request m s)
          (last_name host latency m rest) c (m ∷ rest) (emit s "model.requested") h

    by_override-Counts :
        (c : ExecutionContext) (model : Option String) (requirements : Dict Bool) (prefer : String)
        (s : Session W) (o : Option Override)
        → Same c s.context
        → Counts c (by_override host latency registry request model requirements prefer s o)
    unfolding by_override apply_override
    by_override-Counts c model requirements prefer s (some o) h =
        (ap (λ k. k + 1) h.0, 0, refl, omega (arith, h.1))
    by_override-Counts c model requirements prefer s none h =
        request_from-Counts c (resolve registry model requirements prefer) s h

    by_budget-Counts :
        (c : ExecutionContext) (model : Option String) (requirements : Dict Bool) (prefer : String)
        (s : Session W) (r : Result (Unit {0}))
        → Same c s.context
        → Counts c (by_budget host latency registry request model requirements prefer s r)
    unfolding by_budget
    by_budget-Counts c model requirements prefer s (err e) h = h
    by_budget-Counts c model requirements prefer s (ok u) h =
        by_override-Counts c model requirements prefer s (override_for host latency s.context) h

    -- `call` always answers. A response counts as one call of a model and adds the cost that it states;
    -- an error, also one that comes after retries and fallbacks, leaves calls, cost and tokens.
    pub call-Counts :
        (model : Option String) (requirements : Dict Bool) (prefer : String) (s : Session W)
        → Counts s.context (call host latency registry request model requirements prefer s)
    unfolding call
    call-Counts model requirements prefer s =
        let (checked, c, events) = check_model_budget (host.now s.world) s.context in
        let s' : Session W = record s { context = c; events = s.events ++ events } in
        by_budget-Counts s.context model requirements prefer s' checked (
          check_model_budget-same (λ c. c.model_calls) s.context refl (host.now s.world),
          check_model_budget-same (λ c. c.cost) s.context refl (host.now s.world),
          check_model_budget-same total_tokens s.context refl (host.now s.world),
        )
