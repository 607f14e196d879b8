-- ===== src/Context/Builder.antt =====
-- coflowai/context/builder.py: `ContextBuilder`, what it does to one section. `cap * 0.7` and
-- `int(cap * 0.3)` are taken exactly. `str` of arguments, the digits of a number and the summariser are
-- arguments. A budget is asked for its sections and its two totals only, and its `reserve_output` is
-- taken to be at most `max_tokens`.
use coflowai.Base.{
  ℕ, zero, suc, ◌+◌, ◌-◌, ◌*◌, ◌/◌, max, String, str_append, str_eq, Option, none, some, ◌==◌, ltb,
  List, [], ◌∷◌, map, length, sum_by, if◌then◌else◌,
}
use coflowai.Core.Messages.{ToolCall, Message}
use coflowai.Base.{Value}

abbrev pub chars : String → ℕ
chars String.[] = 0
chars (String.◌∷◌ c s) = suc (chars s)

-- `text[:limit]`
abbrev pub take_chars : ℕ → String → String
take_chars zero s = String.[]
take_chars (suc n) String.[] = String.[]
take_chars (suc n) (String.◌∷◌ c s) = String.◌∷◌ c (take_chars n s)

unfoldable pub estimate_tokens : Option String → ℕ
estimate_tokens none = 0
estimate_tokens (some text) = if chars text == 0 then 0 else max 1 ((chars text + 3) / 4)

pub record ContextBudget : Type 0 where
  pub max_tokens : ℕ
  pub instructions : ℕ
  pub conversation : ℕ
  pub memory : ℕ
  pub tool_results : ℕ
  pub retrieved_context : ℕ
  pub reserve_output : ℕ

unfoldable pub limit_for : ContextBudget → String → ℕ
limit_for b section =
    if str_eq section "instructions"
    then b.instructions
    else if str_eq section "conversation"
    then b.conversation
    else if str_eq section "memory"
    then b.memory
    else if str_eq section "tool_results"
    then b.tool_results
    else if str_eq section "retrieved_context"
    then b.retrieved_context
    else if str_eq section "reserve_output"
    then b.reserve_output
    else b.max_tokens

pub record ContextSection : Type 0 where
  pub name : String
  pub messages : List Message
  pub priority : ℕ
  pub order : ℕ
  pub relevance : ℕ

abbrev pub content_of : Message → Option String
content_of (Message.system content) = some content
content_of (Message.user content) = some content
content_of (Message.assistant content calls) = content
content_of (Message.tool id name content) = some content

abbrev pub calls_of : Message → List ToolCall
calls_of (Message.assistant content calls) = calls
calls_of _ = []

-- The message with another content; a message that is compressed loses its tool calls.
abbrev pub with_content : Message → String → Message
with_content (Message.system content) text = Message.system text
with_content (Message.user content) text = Message.user text
with_content (Message.assistant content calls) text = Message.assistant (some text) []
with_content (Message.tool id name content) text = Message.tool id name text

-- What the builder gets from outside; no summariser stands for `summariser=False`.
pub record Toolkit : Type 0 where
  pub render : Value → String
  pub decimal : ℕ → String
  pub summariser : Option (List Message → ℕ → String)

module _ (kit : Toolkit) where
  unfoldable pub message_tokens : Message → ℕ
  unfolding estimate_tokens
  message_tokens m =
      estimate_tokens (content_of m)
      + 4
      + sum_by
          (λ (c : ToolCall).
            estimate_tokens (some c.name) + estimate_tokens (some (kit.render c.arguments)))
          (calls_of m)

  unfoldable pub tokens : List Message → ℕ
  unfolding message_tokens
  tokens messages = sum_by message_tokens messages

  -- `_total`
  unfoldable pub total : List ContextSection → ℕ
  unfolding tokens
  total sections = sum_by (λ (s : ContextSection). tokens s.messages) sections

  abbrev pub omitted : ℕ → String
  omitted n = str_append "... [" (str_append (kit.decimal n) " chars omitted]")

  -- `_compress`
  unfoldable pub compress : (limit : ℕ) → Message → Message
  compress limit m = elim (content_of m) [
    | none ↦ m
    | some text ↦
        if ltb limit (chars text)
        then with_content m (str_append (take_chars limit text) (omitted (chars text - limit)))
        else m
  ]

  -- The loop from the newest message on that keeps what fits; `kept` is in the order of the section.
  unfoldable pub keep_recent :
      (cap : ℕ) → (newest_first : List Message) → (used : ℕ) → (kept : List Message) → List Message
  unfolding message_tokens
  keep_recent cap [] used kept = kept
  keep_recent cap (m ∷ ms) used kept =
      let over = ltb cap (used + message_tokens m) in
      keep_recent cap ms (if over then used else used + message_tokens m)
        (if over then kept else m ∷ kept)

  abbrev pub reversed : List Message → List Message → List Message
  reversed [] out = out
  reversed (m ∷ ms) out = reversed ms (m ∷ out)

  -- The loop over the conversation, which stops at the first message that does not fit: the older
  -- messages, still with the newest first, and those that are kept.
  unfoldable pub split_recent :
      (cap : ℕ) → List Message → (used : ℕ) → (kept : List Message) → List Message × List Message
  unfolding message_tokens
  split_recent cap [] used kept = ([], kept)
  split_recent cap (m ∷ ms) used kept =
      let rest = split_recent cap ms (used + message_tokens m) (m ∷ kept) in
      if ltb (7 * cap) (10 * (used + message_tokens m)) then (m ∷ ms, kept) else rest

  abbrev pub summarised :
      (List Message → ℕ → String) → (cap : ℕ) → List Message × List Message → List Message
  summarised summariser cap ([], kept) = kept
  summarised summariser cap (m ∷ old, kept) =
      Message.system (str_append "[summary] " (summariser (reversed (m ∷ old) []) (cap * 3 / 10)))
      ∷ kept

  -- The payloads of tool results are compressed first.
  abbrev pub compressed : (name : String) → (cap : ℕ) → List Message → List Message
  unfolding compress
  compressed name cap messages =
      if str_eq name "tool_results"
      then map (compress (max 80 (cap * 4 / max 1 (length messages) - 80))) messages
      else messages

  unfoldable pub by_summariser :
      Option (List Message → ℕ → String) → (name : String) → (cap : ℕ) → List Message → List Message
  unfolding keep_recent split_recent
  by_summariser none name cap messages = keep_recent cap (reversed messages []) 0 []
  by_summariser (some f) name cap messages =
      if str_eq name "conversation"
      then summarised f cap (split_recent cap (reversed messages []) 0 [])
      else keep_recent cap (reversed messages []) 0 []

  -- `_shrink`
  unfoldable pub shrink : (name : String) → (cap : ℕ) → List Message → List Message
  unfolding by_summariser keep_recent split_recent compress
  shrink name zero messages = []
  shrink name (suc c) messages =
      by_summariser kit.summariser name (suc c) (compressed name (suc c) messages)
