-- ===== src/Tests/Gateway.antt =====
-- The theorems about coflowai/models/gateway.py at concrete inputs. The world is a count of calls of
-- providers.
use coflowai.Base.{ℕ, suc, ◌≡◌, refl, none, some, true, [], ◌∷◌}
use coflowai.Core.Errors.{ErrorClass, PythonClass, plain, wrapping, python, ok, err}
use coflowai.Core.Messages.{Message}
use coflowai.Core.Context.{ensure_alive}
use coflowai.Core.Session.{emit}
use coflowai.Models.Registry.{RegisteredModel, ModelRegistry}
use coflowai.Models.Gateway.{
  ModelRequest, Provider, ModelHost, empty_response, try_chain, last_name, call,
}
use coflowai.Models.Gateway.Counting.{Counts, call-Counts}
use coflowai.Models.Gateway.Failover.{Ended, try_chain-Ended, try_chain-timeout}
use coflowai.Tests.Tools.{session}

-- A timer that lets operations run, and one that never does.
abbrev pub host : ModelHost ℕ
host = record {
  tick = 10;
  now = λ w. 20;
  timed = λ timeout operation w. operation w;
  draw = λ n. 0;
  decimal = λ n. "2";
  render = λ v. "?";
}

abbrev impatient : ModelHost ℕ
impatient = record host {
  timed = λ timeout operation w. (err (python PythonClass.timeout_error), suc w);
}

abbrev answering : Provider ℕ
answering = record {
  generate = λ request w.
      (ok (record empty_response { text = some "hi"; input_tokens = 3; output_tokens = 4 }), suc w);
}

abbrev failing : Provider ℕ
failing = record { generate = λ request w. (err (plain ErrorClass.model_error), suc w) }

abbrev large : RegisteredModel (Provider ℕ)
large = record {
  name = "large";
  provider = failing;
  capability = λ k. true;
  input_per_million = 5;
  output_per_million = 10;
  cached_input_per_million = 1;
  priority = 1;
  latency_hint = 3;
  fallbacks = "small" ∷ [];
  tags = [];
}

abbrev small : RegisteredModel (Provider ℕ)
small = record large { name = "small"; provider = answering; fallbacks = [] }

abbrev pub registry : ModelRegistry (Provider ℕ)
registry = record { models = ("large", large) ∷ ("small", small) ∷ []; default_name = some "large" }

abbrev pub request : ModelRequest
request = record {
  messages = Message.user "hello" ∷ [];
  temperature = none;
  timeout_seconds = some 50;
  model = none;
}

call-Counts_example :
    Counts session.context (call host 7 registry request (some "large") [] "priority" session)
call-Counts_example = call-Counts host 7 registry request (some "large") [] "priority" session

try_chain-Ended_example :
    Ended host 7 request
      (large ∷ small ∷ [])
      session
      (try_chain host 7 request (last_name host 7 large (small ∷ [])) (large ∷ small ∷ []) session)
try_chain-Ended_example =
    try_chain-Ended host 7 request large (small ∷ []) session (refl, (refl, tt))

try_chain-timeout_example :
    try_chain impatient 7 request "small" (large ∷ small ∷ []) session
    ≡ some (
      err (wrapping ErrorClass.execution_timeout (python PythonClass.timeout_error)),
      emit (record session { world = 1 }) "model.failed",
    )
unfolding ensure_alive
try_chain-timeout_example =
    try_chain-timeout impatient 7 request large (small ∷ []) "small" session 50 1 refl refl refl
