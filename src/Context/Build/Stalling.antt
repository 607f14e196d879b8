-- ===== src/Context/Build/Stalling.antt =====
-- The global cap of `build` in coflowai/context/builder.py, where a summariser gives summaries that are
-- too long for it.
use coflowai.Base.{
  ℕ, zero, suc, ◌+◌, ◌*◌, ◌/◌, ◌<◌, ◌≡◌, refl, ap, ◌∙◌, sym, subst, String, str_append, none, some,
  true, List, [], ◌∷◌, arith, ltb, if◌then◌else◌,
}
use coflowai.Core.Messages.{Message}
use coflowai.Context.Builder.{
  ContextSection, Toolkit, message_tokens, tokens, total, split_recent, by_summariser, shrink,
}
use coflowai.Context.Build.{worst, put_messages, target, compress_all}
use coflowai.Context.Build.Fitting.{shrunk, compress_all-step}

module _ (kit : Toolkit) (f : List Message → ℕ → String) where
  abbrev pub summary : List Message → ℕ → Message
  summary ms n = Message.system (str_append "[summary] " (f ms n))

  -- A conversation of one message.
  abbrev pub single : (priority order relevance : ℕ) → Message → ContextSection
  single priority order relevance m = record {
    name = "conversation";
    messages = m ∷ [];
    priority = suc priority;
    order = order;
    relevance = relevance;
  }

  shrink-single :
      (c : ℕ) (m : Message)
      → kit.summariser ≡ some f
      → suc c < message_tokens kit m
      → shrink kit "conversation" (suc c) (m ∷ []) ≡ summary (m ∷ []) (suc c * 3 / 10) ∷ []
  unfolding shrink by_summariser split_recent
  shrink-single c m e h =
      subst
        (λ g.
          by_summariser kit g "conversation" (suc c) (m ∷ [])
          ≡ summary (m ∷ []) (suc c * 3 / 10) ∷ [])
        (sym e)
        (let over : ltb (7 * suc c) (10 * (0 + message_tokens kit m)) ≡ true = ground arith in
          rw (over, if◌then◌else◌) refl)

  target-single :
      (overall p o r : ℕ) (m : Message)
      → overall < message_tokens kit m
      → target kit overall (single p o r m ∷ []) (single p o r m) ≡ overall
  unfolding target tokens total
  target-single overall p o r m h = omega arith

  shrunk-single :
      (c p o r : ℕ) (m : Message)
      → kit.summariser ≡ some f
      → suc c < message_tokens kit m
      → shrunk kit (suc c) (single p o r m) []
        ≡ single p o r (summary (m ∷ []) (suc c * 3 / 10)) ∷ []
  unfolding shrunk worst put_messages
  shrunk-single c p o r m e h =
      let room =
        ap (λ n. shrink kit "conversation" n (m ∷ [])) (target-single (suc c) p o r m h)
        ∙ shrink-single c m e h in
      ap
        (λ ms. elim ms as (λ _. List ContextSection) [
          | [] ↦ []
          | x ∷ xs ↦ record (single p o r m) { messages = x ∷ xs } ∷ []
        ])
        room

  over_budget :
      (overall p o r : ℕ) (m : Message)
      → overall < message_tokens kit m
      → ltb overall (total kit (single p o r m ∷ [])) ≡ true
  unfolding total tokens
  over_budget overall p o r m h = ground arith

  -- No fuel is enough for a single message and a summariser whose every summary is over the budget.
  pub compress_all-stalls :
      (c fuel p o r : ℕ) (m : Message)
      → kit.summariser ≡ some f
      → ((ms : List Message) (n : ℕ) → suc c < message_tokens kit (summary ms n))
      → suc c < message_tokens kit m
      → compress_all kit (suc c) fuel (single p o r m ∷ []) ≡ none
  compress_all-stalls c zero p o r m e long h = unfold compress_all total tokens in ground arith
  compress_all-stalls c (suc fuel) p o r m e long h =
      compress_all-step kit (suc c) fuel (single p o r m) [] (over_budget (suc c) p o r m h)
        (unfold worst in ground arith)
      ∙ ap (compress_all kit (suc c) fuel) (shrunk-single c p o r m e h)
      ∙ compress_all-stalls c fuel p o r (summary (m ∷ []) (suc c * 3 / 10)) e long
          (long (m ∷ []) (suc c * 3 / 10))
