-- ===== src/Models/Gateway.antt =====
-- coflowai/models/gateway.py: `ModelGateway.call`, with the pricing of coflowai/models/base.py. The
-- adapter of a provider, the timer of asyncio, the random draw of a delay and the digits of a
-- number are arguments. A cost is counted in millionths of the unit of prices. A retry is announced
-- at the start of the attempt that it announces. Two candidates are one object exactly when they
-- have one name.
pub mod Counting
pub mod Failover
pub mod Stream
use coflowai.Base.{
  ℕ, zero, suc, ◌+◌, ◌-◌, ◌*◌, String, Option, none, some, Bool, true, not, ◌||◌, List, [], ◌∷◌,
  ◌++◌, str_eq, if◌then◌else◌, ◌==◌, Value,
}
use coflowai.Base.Json.{is_truthy}
use coflowai.Base.Dict
use coflowai.Base.Dict.{Dict}
use coflowai.Core.Errors.{
  ErrorClass, PythonClass, Error, plain, wrapping, python, Result, ok, err, is_cancelled,
  is_retryable,
}
use coflowai.Core.Messages.{Message, ModelResponse, Override, response, entry, bare}
use coflowai.Core.Context.{
  ExecutionContext, ensure_alive, check_model_budget, maybe_warn_budget, or_text,
}
use coflowai.Core.Session.{Session, emit, truthy, remaining, minimum}
use coflowai.Core.Retry.{Run, run_with_retry, run_with_timeout}
use coflowai.Policies.Policy.{delay_for, temperature_override}
use coflowai.Observability.Usage.{record_model}
use coflowai.Models.Registry.{RegisteredModel, ModelRegistry, resolve}

-- coflowai/models/base.py, as far as the gateway writes it.
pub record ModelRequest : Type 0 where
  pub messages : List Message
  pub temperature : Option ℕ
  pub timeout_seconds : Option ℕ
  pub model : Option String

pub record Provider (W : Type 0) : Type 0 where
  pub generate : ModelRequest → W → Result ModelResponse × W

-- What the gateway uses of the clock, of asyncio and of random numbers.
pub record ModelHost (W : Type 0) : Type 0 where
  pub tick : ℕ
  pub now : W → ℕ
  pub timed : ℕ → (W → Result ModelResponse × W) → W → Result ModelResponse × W
  pub draw : ℕ → ℕ
  pub decimal : ℕ → String
  pub render : Value → String

-- What a call ends with; `none` means that the fuel of a retry loop ran out.
abbrev pub Answer : Type 0 → Type 0
Answer W = Option (Result ModelResponse × Session W)

abbrev pub model_error : Error
model_error = plain ErrorClass.model_error

-- The handler in `attempt`: an exception that is not of the framework becomes a cause.
abbrev pub wrapped : Error → Error
wrapped (python PythonClass.cancelled_error) = python PythonClass.cancelled_error
wrapped (python p) = wrapping ErrorClass.model_error (python p)
wrapped e = e

abbrev pub wrap : Result ModelResponse → Result ModelResponse
wrap (ok r) = ok r
wrap (err e) = err (wrapped e)

abbrev pub empty_response : ModelResponse
empty_response = record {
  text = none;
  tool_calls = [];
  input_tokens = 0;
  output_tokens = 0;
  cached_tokens = 0;
  cost = none;
  finish_reason = none;
  model = none;
}

-- `override.get("finish_reason", "stop")`
abbrev pub or_stop : Option (Option String) → Option String
or_stop none = some "stop"
or_stop (some reason) = reason

-- `str(value)`
abbrev pub text_of : (render : Value → String) → Value → String
text_of render (Value.text s) = s
text_of render v = render v

-- The response of an override, before its cost and model are set.
abbrev pub overridden : (render : Value → String) → Override → ModelResponse
overridden render (response r) = r
overridden render (entry text reason) = record empty_response {
  text = text;
  finish_reason = or_stop reason;
}
overridden render (bare v) = record empty_response {
  text = some (text_of render v);
  finish_reason = some "stop";
}

-- Whether an override is not false and not empty; a dict with a text and a response never are.
abbrev pub is_given : Override → Bool
is_given (response r) = true
is_given (entry text reason) = true
is_given (bare v) = is_truthy v

-- `overrides.get(n)`, on the entries whose key is a number.
abbrev pub numbered_entry : List (ℕ × Override) → ℕ → Option Override
numbered_entry [] n = none
numbered_entry ((k, o) ∷ entries) n =
    let rest = numbered_entry entries n in if k == n then some o else rest

-- Null is None, which is no override.
abbrev pub not_none : Option Override → Option Override
not_none none = none
not_none (some (bare Value.null)) = none
not_none (some o) = some o

-- `a or b`
abbrev pub or_override : Option Override → Option Override → Option Override
or_override none b = b
or_override (some a) b = if is_given a then some a else b

-- `_model_timeout`
unfoldable pub model_timeout : (tick now : ℕ) → ExecutionContext → Option ℕ
model_timeout tick now c =
    minimum (truthy c.policy.model_timeout_seconds ++ remaining tick now c.deadline)

abbrev pub or_timeout : Option ℕ → Option ℕ → Option ℕ
or_timeout (some (suc n)) other = some (suc n)
or_timeout (some zero) other = other
or_timeout none other = other

abbrev pub or_temperature : Option ℕ → Option ℕ → Option ℕ
or_temperature (some t) own = some t
or_temperature none own = own

-- `response.cost`, and the estimate where it is None.
abbrev pub cost_or : Option ℕ → ℕ → ℕ
cost_or none estimate = estimate
cost_or (some cost) estimate = cost

module _ {W : Type 0} where
  -- `ModelPricing.estimate`
  unfoldable pub estimate :
      RegisteredModel (Provider W) → (input_tokens output_tokens cached_tokens : ℕ) → ℕ
  estimate m i o c =
      (i - c) * m.input_per_million + o * m.output_per_million + c * m.cached_input_per_million

  -- `_account`: the response with its cost and model, and the session with its tokens.
  abbrev pub priced : RegisteredModel (Provider W) → ModelResponse → ModelResponse
  unfolding estimate
  priced m r = record r {
    cost = some (cost_or r.cost (estimate m r.input_tokens r.output_tokens r.cached_tokens));
    model = or_text r.model (some m.name);
  }

  unfoldable pub account :
      RegisteredModel (Provider W) → ModelResponse → (latency : ℕ) → Session W → Session W
  unfolding estimate record_model
  account m r latency s =
      let cost = cost_or r.cost (estimate m r.input_tokens r.output_tokens r.cached_tokens) in
      let c = s.context in
      record s {
        context = record c {
          model_calls = c.model_calls + 1;
          input_tokens = c.input_tokens + r.input_tokens;
          output_tokens = c.output_tokens + r.output_tokens;
          cached_tokens = c.cached_tokens + r.cached_tokens;
          cost = c.cost + cost;
        };
        usage =
            record_model s.usage m.name c.agent_name c.node_id r.input_tokens r.output_tokens
              r.cached_tokens cost latency;
      }

  -- `maybe_warn_budget`, on a session.
  unfoldable pub warned : Session W → Session W
  unfolding maybe_warn_budget
  warned s =
      let (c, events) = maybe_warn_budget s.context in
      record s { context = c; events = s.events ++ events }

  -- `_apply_override`
  unfoldable pub apply_override :
      (render : Value → String) → Override → Session W → Result ModelResponse × Session W
  apply_override render o s =
      let r = overridden render o in
      let counted = record s.context { model_calls = s.context.model_calls + 1 } in
      let called : Session W = record s { context = counted } in
      (
        ok (record r { cost = some 0; model = or_text r.model (some "override") }),
        emit called "model.completed",
      )

module _ {W : Type 0} (host : ModelHost W) (latency : ℕ) where
  -- `_override_for`: an entry of the number of the next call, as a text or as a number.
  unfoldable pub override_for : ExecutionContext → Option Override
  override_for c =
      let n = c.model_calls + 1 in
      not_none (
        or_override (Dict.get c.state.model_overrides (host.decimal n))
          (numbered_entry c.state.numbered_overrides n))

  module _ (m : RegisteredModel (Provider W)) (request : ModelRequest) where
    -- The part of `attempt` after `ensure_alive`.
    unfoldable pub generated : Session W → Result (Unit {0}) → Result ModelResponse × Session W
    unfolding run_with_timeout
    generated s (err e) = (err e, s)
    generated s (ok u) =
        let (r, w) =
          run_with_timeout host.timed (m.provider.generate request) request.timeout_seconds
            s.world in
        (wrap r, record s { world = w })

    unfoldable pub announced : (attempt : ℕ) → Session W → Session W
    announced zero s = s
    announced (suc n) s = emit s "model.retrying"

    unfoldable pub attempt : ℕ → Session W → Result ModelResponse × Session W
    unfolding generated announced ensure_alive
    attempt n s =
        let s' = announced n s in generated s' (ensure_alive (host.now s'.world) s'.context)

    -- What follows the attempts.
    unfoldable pub finished : Result ModelResponse → Session W → Result ModelResponse × Session W
    unfolding account warned
    finished (ok r) s = (ok (priced m r), emit (warned (account m r latency s)) "model.completed")
    finished (err e) s = (err e, if is_cancelled e then s else emit s "model.failed")

    abbrev pub called : Option (Run (Session W) ModelResponse) → Answer W
    unfolding finished
    called none = none
    called (some run) = some (finished run.result run.world)

    -- `_call_one`
    unfoldable pub call_one : Session W → Answer W
    unfolding finished attempt run_with_retry delay_for
    call_one s =
        let policy = s.context.policy.retry in
        called (run_with_retry attempt policy.attempts (λ n. delay_for policy (host.draw n) n) s)

  module _ (request : ModelRequest) (last : String) where
    -- What follows a candidate that ended.
    unfoldable pub failover : String → (next : Session W → Answer W) → Answer W → Answer W
    failover name next none = none
    failover name next (some (ok r, s)) = some (ok r, s)
    failover name next (some (err e, s)) =
        let further = next (emit s "model.failed") in
        if is_cancelled e || (not (is_retryable e) || str_eq name last)
        then some (err e, s)
        else further

    -- The loop over the chain, whose last candidate is named `last`.
    unfoldable pub try_chain : List (RegisteredModel (Provider W)) → Session W → Answer W
    unfolding failover call_one
    try_chain [] s = some (err model_error, s)
    try_chain (m ∷ ms) s =
        failover m.name (try_chain ms) (call_one m (record request { model = some m.name }) s)

  -- The registered fallbacks of a model.
  unfoldable pub fallbacks :
      ModelRegistry (Provider W) → List String → List (RegisteredModel (Provider W))
  fallbacks registry [] = []
  fallbacks registry (name ∷ names) = elim (Dict.get registry.models name) [
    | none ↦ fallbacks registry names
    | some m ↦ m ∷ fallbacks registry names
  ]

  abbrev pub last_name : RegisteredModel (Provider W) → List (RegisteredModel (Provider W)) → String
  last_name m [] = m.name
  last_name m (k ∷ ks) = last_name k ks

  module _ (registry : ModelRegistry (Provider W)) (request : ModelRequest) where
    abbrev pub prepared : RegisteredModel (Provider W) → Session W → ModelRequest
    unfolding temperature_override model_timeout
    prepared m s = record request {
      temperature = or_temperature (temperature_override s.context.policy) request.temperature;
      timeout_seconds =
          or_timeout request.timeout_seconds (model_timeout host.tick (host.now s.world) s.context);
      model = some m.name;
    }

    -- From the resolved model on.
    unfoldable pub request_from : Result (RegisteredModel (Provider W)) → Session W → Answer W
    unfolding try_chain fallbacks temperature_override model_timeout
    request_from (err e) s = some (err e, s)
    request_from (ok m) s =
        let rest = fallbacks registry m.fallbacks in
        try_chain (prepared m s) (last_name m rest) (m ∷ rest) (emit s "model.requested")

    abbrev pub by_override :
        (model : Option String)
        → Dict Bool
        → (prefer : String) → Session W
        → Option Override
        → Answer W
    unfolding request_from apply_override resolve
    by_override model requirements prefer s (some o) = some (apply_override host.render o s)
    by_override model requirements prefer s none =
        request_from (resolve registry model requirements prefer) s

    abbrev pub by_budget :
        (model : Option String)
        → Dict Bool
        → (prefer : String) → Session W
        → Result (Unit {0})
        → Answer W
    unfolding request_from apply_override resolve override_for
    by_budget model requirements prefer s (err e) = some (err e, s)
    by_budget model requirements prefer s (ok u) =
        by_override model requirements prefer s (override_for s.context)

    unfoldable pub call :
        (model : Option String) → Dict Bool → (prefer : String) → Session W → Answer W
    unfolding request_from apply_override resolve override_for check_model_budget
    call model requirements prefer s =
        let (checked, c, events) = check_model_budget (host.now s.world) s.context in
        let s' : Session W = record s { context = c; events = s.events ++ events } in
        by_budget model requirements prefer s' checked
