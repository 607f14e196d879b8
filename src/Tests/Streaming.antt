-- ===== src/Tests/Streaming.antt =====
-- The theorems about streams of coflowai/models/ at concrete inputs.
use coflowai.Base.{ℕ, ◌≡◌, some, List, [], ◌∷◌, map, Value}
use coflowai.Core.Messages.{ModelResponse}
use coflowai.Core.Errors.{Result, ok}
use coflowai.Models.Registry.{RegisteredModel}
use coflowai.Models.Gateway.{ModelRequest, Provider, empty_response}
use coflowai.Models.Gateway.Counting.{Counts}
use coflowai.Models.Gateway.Stream.{stream}
use coflowai.Models.Gateway.Stream.Once.{stream-Counts}
use coflowai.Models.Streaming.{StreamChunk}
use coflowai.Tests.Tools.{session}
use coflowai.Tests.Gateway.{host, registry, request}
use coflowai.Models.Streaming.{emulate_stream}
use coflowai.Models.Streaming.Emulation.{normal, rebuilt, rebuilt-emulate_stream}

abbrev answer : ModelResponse
answer = record empty_response {
  text = some "one moment";
  tool_calls =
      record { id = "call_1"; name = "pay"; arguments = Value.null }
      ∷ record { id = "call_2"; name = "mail"; arguments = Value.null }
      ∷ [];
}

rebuilt-emulate_stream_example : rebuilt answer (emulate_stream answer) ≡ normal answer
rebuilt-emulate_stream_example = rebuilt-emulate_stream answer

-- The answer as chunks, at a world of 3.
abbrev chunks :
    RegisteredModel (Provider ℕ)
    → ModelRequest
    → ℕ
    → List (StreamChunk × ℕ) × (Result (Unit {0}) × ℕ)
unfolding emulate_stream
chunks m asked w = (map (λ (c : StreamChunk). (c, 3)) (emulate_stream answer), (ok tt, 3))

stream-Counts_example :
    Counts session.context
      (some (stream host 7 registry request chunks (some "small") [] "priority" session).1)
stream-Counts_example =
    stream-Counts host 7 registry request chunks (some "small") [] "priority" session
