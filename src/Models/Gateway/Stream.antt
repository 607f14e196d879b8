-- ===== src/Models/Gateway/Stream.antt =====
-- `ModelGateway.stream` of coflowai/models/gateway.py, for a caller that takes all chunks. What an
-- adapter streams is an argument: the chunks, each with the world as it is then, and how the stream
-- ends.
pub mod Once
use coflowai.Base.{
  ℕ, String, Option, none, some, Bool, true, false, List, [], ◌∷◌, ◌++◌, str_eq, if◌then◌else◌,
}
use coflowai.Base.Dict.{Dict}
use coflowai.Core.Errors.{Result, ok, err}
use coflowai.Core.Messages.{ModelResponse}
use coflowai.Core.Context.{ExecutionContext, ensure_alive, check_model_budget}
use coflowai.Core.Session.{Session, emit}
use coflowai.Models.Registry.{RegisteredModel, ModelRegistry, resolve}
use coflowai.Models.Streaming.{
  ChunkType, StreamChunk, StreamAccumulator, new_accumulator, add, join_texts, build,
}
use coflowai.Models.Gateway.{ModelRequest, Provider, ModelHost, wrap, finished, prepared}

-- What the loop over the chunks ends with.
pub record Consumed (W : Type 0) : Type 0 where
  pub delivered : List StreamChunk
  pub accumulator : StreamAccumulator
  pub outcome : Result (Option ModelResponse)
  pub world : W

abbrev pub is_final : ChunkType → Bool
is_final ChunkType.done = true
is_final _ = false

abbrev pub at_end : Result (Unit {0}) → Result (Option ModelResponse)
at_end (ok u) = ok none
at_end (err e) = err e

-- The response of the adapter, with the text of the chunks where it has none; without a response, what
-- the accumulator gives.
unfoldable pub final_response :
    (model : String) → StreamAccumulator → Option ModelResponse → ModelResponse
unfolding join_texts build
final_response model a none = build a 0 0 0 none none (some model)
final_response model a (some r) = elim r.text [
  | some s ↦ r
  | none ↦
      if str_eq (join_texts a.texts) "" then r else record r { text = some (join_texts a.texts) }
]

abbrev pub streamed :
    (model : String) → StreamAccumulator → Result (Option ModelResponse) → Result ModelResponse
unfolding final_response
streamed model a (err e) = wrap (err e)
streamed model a (ok final) = ok (final_response model a final)

module _ {W : Type 0} (host : ModelHost W) (latency : ℕ) (registry : ModelRegistry (Provider W))
    (request : ModelRequest)
    (chunks : RegisteredModel (Provider W)
      → ModelRequest
      → W
      → List (StreamChunk × W) × (Result (Unit {0}) × W)) where
  -- The loop over the chunks.
  unfoldable pub consume :
      ExecutionContext
      → StreamAccumulator
      → (delivered : List StreamChunk) → List (StreamChunk × W)
      → Result (Unit {0}) × W
      → Consumed W
  unfolding add ensure_alive
  consume c a delivered [] (r, w) = record {
    delivered = delivered;
    accumulator = a;
    outcome = at_end r;
    world = w;
  }
  consume c a delivered ((chunk, w) ∷ rest) last =
      let next = consume c (add a chunk) (delivered ++ chunk ∷ []) rest last in
      let stopped : Result (Option ModelResponse) → Consumed W =
        λ r. record { delivered = delivered; accumulator = a; outcome = r; world = w } in
      elim (ensure_alive (host.now w) c) [
        | err e ↦ stopped (err e)
        | ok u ↦ if is_final chunk.type then stopped (ok chunk.response) else next
      ]

  -- What follows the loop.
  unfoldable pub closed :
      RegisteredModel (Provider W)
      → Session W
      → Consumed W
      → List StreamChunk × (Result ModelResponse × Session W)
  unfolding finished streamed
  closed m s k = (
    k.delivered,
    finished host latency m request (streamed m.name k.accumulator k.outcome)
        (record s { world = k.world }),
  )

  -- From the resolved model on: the chunks that were handed on, and the response of the last one.
  unfoldable pub stream_from :
      Result (RegisteredModel (Provider W))
      → Session W
      → List StreamChunk × (Result ModelResponse × Session W)
  unfolding closed consume prepared
  stream_from (err e) s = ([], (err e, s))
  stream_from (ok m) s =
      let (given, last) = chunks m (prepared host latency registry request m s) s.world in
      closed m (emit s "model.requested") (consume s.context new_accumulator [] given last)

  abbrev pub stream_checked :
      (model : Option String)
      → Dict Bool
      → (prefer : String) → Session W
      → Result (Unit {0})
      → List StreamChunk × (Result ModelResponse × Session W)
  unfolding stream_from resolve
  stream_checked model requirements prefer s (err e) = ([], (err e, s))
  stream_checked model requirements prefer s (ok u) =
      stream_from (resolve registry model requirements prefer) s

  unfoldable pub stream :
      (model : Option String)
      → Dict Bool
      → (prefer : String) → Session W
      → List StreamChunk × (Result ModelResponse × Session W)
  unfolding stream_checked check_model_budget
  stream model requirements prefer s =
      let (checked, c, events) = check_model_budget (host.now s.world) s.context in
      let s' : Session W = record s { context = c; events = s.events ++ events } in
      stream_checked model requirements prefer s' checked
