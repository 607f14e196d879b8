-- ===== src/Tests/Context.antt =====
-- The theorems about coflowai/context/builder.py at concrete inputs.
use coflowai.Base.{ℕ, ◌≡◌, refl, String, none, some, List, [], ◌∷◌, arith}
use coflowai.Core.Messages.{Message}
use coflowai.Context.Builder.{
  ContextSection, Toolkit, estimate_tokens, message_tokens, tokens, total,
}
use coflowai.Context.Build.{compress_all}
use coflowai.Context.Build.Fitting.{Fits, compress_all-Fits}
use coflowai.Context.Build.Stalling.{single, compress_all-stalls}

abbrev kit : Toolkit
kit = record { render = λ v. "{}"; decimal = λ n. "9"; summariser = none }

-- A summary that is as long as it likes.
abbrev wordy : List Message → ℕ → String
wordy messages limit = "in short"

abbrev wordy_kit : Toolkit
wordy_kit = record kit { summariser = some wordy }

abbrev turns : ContextSection
turns = record {
  name = "conversation";
  messages = Message.user "hello" ∷ Message.user "hello again" ∷ [];
  priority = 10;
  order = 90;
  relevance = 1;
}

abbrev notes : ContextSection
notes = record turns {
  name = "memory";
  messages = Message.system "[memory] tea" ∷ [];
  priority = 70;
}

compress_all-Fits_example : Fits kit 8 (compress_all kit 8 30 (turns ∷ notes ∷ []))
unfolding total tokens message_tokens estimate_tokens
compress_all-Fits_example =
    compress_all-Fits kit 8 30 (turns ∷ notes ∷ []) refl (refl, (refl, tt)) (omega arith)

compress_all-stalls_example :
    compress_all wordy_kit 5 100
      (single wordy_kit wordy 9 90 1 (Message.user "a longer message") ∷ [])
    ≡ none
unfolding message_tokens estimate_tokens
compress_all-stalls_example =
    compress_all-stalls wordy_kit wordy 4 100 9 90 1 (Message.user "a longer message") refl
      (λ ms n. omega arith) (omega arith)
