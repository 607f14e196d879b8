-- ===== src/Models/Gateway/Stream/Once.antt =====
-- What `stream` of coflowai/models/gateway.py adds to the counters of the context.
use coflowai.Base.{ℕ, refl, String, Option, some, Bool, List, [], ◌++◌}
use coflowai.Base.Dict.{Dict}
use coflowai.Core.Errors.{Result, ok, err}
use coflowai.Core.Context.{ExecutionContext, check_model_budget, total_tokens}
use coflowai.Core.Context.Keeping.{check_model_budget-same}
use coflowai.Core.Session.{Session, emit}
use coflowai.Models.Registry.{RegisteredModel, ModelRegistry, resolve}
use coflowai.Models.Streaming.{StreamChunk, new_accumulator}
use coflowai.Models.Gateway.{ModelRequest, Provider, ModelHost, prepared}
use coflowai.Models.Gateway.Counting.{Counts, Same, finished-Counts}
use coflowai.Models.Gateway.Stream.{
  Consumed, streamed, consume, closed, stream_from, stream_checked, stream,
}

module _ {W : Type 0} (host : ModelHost W) (latency : ℕ) (registry : ModelRegistry (Provider W))
    (request : ModelRequest)
    (chunks : RegisteredModel (Provider W)
      → ModelRequest
      → W
      → List (StreamChunk × W) × (Result (Unit {0}) × W)) where
  closed-Counts :
      (c : ExecutionContext) (m : RegisteredModel (Provider W)) (s : Session W) (k : Consumed W)
      → Same c s.context
      → Counts c (some (closed host latency registry request chunks m s k).1)
  unfolding closed
  closed-Counts c m s k h =
      finished-Counts host latency m request c (streamed m.name k.accumulator k.outcome)
        (record s { world = k.world }) h

  stream_from-Counts :
      (c : ExecutionContext) (r : Result (RegisteredModel (Provider W))) (s : Session W)
      → Same c s.context
      → Counts c (some (stream_from host latency registry request chunks r s).1)
  unfolding stream_from
  stream_from-Counts c (err e) s h = h
  stream_from-Counts c (ok m) s h =
      let (given, last) = chunks m (prepared host latency registry request m s) s.world in
      closed-Counts c m (emit s "model.requested")
        (consume host latency registry request chunks s.context new_accumulator [] given last) h

  stream_checked-Counts :
      (c : ExecutionContext) (model : Option String) (requirements : Dict Bool) (prefer : String)
      (s : Session W) (r : Result (Unit {0}))
      → Same c s.context
      → Counts c (
          some
            (stream_checked host latency registry request chunks model requirements prefer s r).1)
  unfolding stream_checked
  stream_checked-Counts c model requirements prefer s (err e) h = h
  stream_checked-Counts c model requirements prefer s (ok u) h =
      stream_from-Counts c (resolve registry model requirements prefer) s h

  -- A stream whose chunks are all taken is accounted exactly once: a response is one call and adds the
  -- cost that it states; a stream that fails, also after chunks were handed on, adds no call, no cost
  -- and no tokens.
  pub stream-Counts :
      (model : Option String) (requirements : Dict Bool) (prefer : String) (s : Session W)
      → Counts s.context
          (some (stream host latency registry request chunks model requirements prefer s).1)
  unfolding stream
  stream-Counts model requirements prefer s =
      let (checked, c, events) = check_model_budget (host.now s.world) s.context in
      let s' : Session W = record s { context = c; events = s.events ++ events } in
      stream_checked-Counts s.context model requirements prefer s' checked (
        check_model_budget-same (λ c. c.model_calls) s.context refl (host.now s.world),
        check_model_budget-same (λ c. c.cost) s.context refl (host.now s.world),
        check_model_budget-same total_tokens s.context refl (host.now s.world),
      )
