-- ===== src/Context/Build.antt =====
-- coflowai/context/builder.py: the sections of a `ContextBuilder` and `build`. The sections are a
-- list in the order of their first `add`, with different names; relevance is a whole number of a
-- fixed unit.
pub mod Fitting
pub mod Stalling
use coflowai.Base.{
  ℕ, zero, suc, ◌+◌, ◌-◌, String, str_append, str_eq, Option, none, some, Bool, true, false, ◌&&◌,
  ◌||◌, ◌==◌, ltb, leb, List, [], ◌∷◌, ◌++◌, map, filter, if◌then◌else◌, Value,
}
use coflowai.Base.Dict.{Dict}
use coflowai.Core.Messages.{Message}
use coflowai.Context.Builder.{
  ContextBudget, ContextSection, Toolkit, tokens, total, limit_for, shrink,
}

-- The section after `add`.
abbrev pub extended :
    ContextSection
    → List Message
    → (priority : ℕ) → (order : Option ℕ) → (relevance : ℕ) → ContextSection
extended s messages priority order relevance = record s {
  messages = s.messages ++ messages;
  priority = priority;
  order = elim order [ none ↦ s.order | some o ↦ o ];
  relevance = relevance;
}

-- `add`
unfoldable pub add :
    List ContextSection
    → (name : String) → List Message
    → (priority : ℕ) → (order : Option ℕ) → (relevance : ℕ) → List ContextSection
add [] name messages priority order relevance =
    record {
      name = name;
      messages = messages;
      priority = priority;
      order = elim order [ none ↦ priority | some o ↦ o ];
      relevance = relevance;
    }
    ∷ []
add (s ∷ sections) name messages priority order relevance =
    let rest = s ∷ add sections name messages priority order relevance in
    if str_eq s.name name then extended s messages priority order relevance ∷ sections else rest

-- The sections that the builder knows; `unit` is a relevance of 1.
module _ (unit : ℕ) where
  -- `add_text`, with the role of a system message
  unfoldable pub add_text :
      List ContextSection
      → (name text : String) → (priority : ℕ) → (order : Option ℕ) → List ContextSection
  unfolding add
  add_text sections name text priority order =
      if str_eq text ""
      then sections
      else add sections name (Message.system text ∷ []) priority order unit

  unfoldable pub instructions : List ContextSection → String → List ContextSection
  unfolding add_text
  instructions sections text = add_text sections "instructions" text 0 (some 0)

  unfoldable pub conversation : List ContextSection → List Message → List ContextSection
  unfolding add
  conversation sections messages = add sections "conversation" messages 10 (some 90) unit

  abbrev pub tagged : String → String → Message
  tagged tag item = Message.system (str_append tag item)

  unfoldable pub memory : List ContextSection → List String → (relevance : ℕ) → List ContextSection
  unfolding add
  memory sections items relevance =
      add sections "memory" (map (tagged "[memory] ") items) 70 (some 20) relevance

  unfoldable pub retrieved :
      List ContextSection → List String → (relevance : ℕ) → List ContextSection
  unfolding add
  retrieved sections items relevance =
      add sections "retrieved_context" (map (tagged "[knowledge] ") items) 60 (some 30) relevance

  unfoldable pub tool_results : List ContextSection → List Message → List ContextSection
  unfolding add
  tool_results sections messages = add sections "tool_results" messages 50 (some 40) unit

  -- The keys of the state that do not begin with two underscores are its field `user`.
  unfoldable pub workflow_state :
      (render_state : Dict Value → String) → List ContextSection → Dict Value → List ContextSection
  unfolding add_text
  workflow_state render_state sections [] = sections
  workflow_state render_state sections (p ∷ visible) =
      add_text sections "workflow_state"
        (str_append "Workflow state:\n" (render_state (p ∷ visible))) 40 (some 10)

-- The sort key, on two numbers.
abbrev pub pair_ltb : ℕ → ℕ → ℕ → ℕ → Bool
pair_ltb a b c d = ltb a c || (a == c && ltb b d)

-- `sorted(..., key=lambda s: (s.order, s.priority))`, which keeps the order of equals.
unfoldable pub place : ContextSection → List ContextSection → List ContextSection
place s [] = s ∷ []
place s (t ∷ ts) =
    let rest = t ∷ place s ts in
    if pair_ltb t.order t.priority s.order s.priority
      || (t.order == s.order && t.priority == s.priority)
    then rest
    else s ∷ t ∷ ts

unfoldable pub sorted_from : List ContextSection → List ContextSection → List ContextSection
unfolding place
sorted_from done [] = done
sorted_from done (s ∷ sections) = sorted_from (place s done) sections

unfoldable pub flattened : List ContextSection → List Message
flattened [] = []
flattened (s ∷ sections) = s.messages ++ flattened sections

module _ (kit : Toolkit) where
  -- `max(sections, key=...)`: the first of those with the greatest key.
  unfoldable pub worst : ContextSection → List ContextSection → ContextSection
  unfolding tokens
  worst best [] = best
  worst best (s ∷ sections) =
      worst
        (if pair_ltb best.priority (tokens kit best.messages) s.priority (tokens kit s.messages)
          then s
          else best)
        sections

  -- The section of the name gets the messages, and goes if they are none.
  unfoldable pub put_messages :
      (name : String) → List Message → List ContextSection → List ContextSection
  put_messages name messages [] = []
  put_messages name messages (s ∷ sections) =
      let rest = s ∷ put_messages name messages sections in
      if str_eq s.name name
      then elim messages [ [] ↦ sections | m ∷ ms ↦ record s { messages = m ∷ ms } ∷ sections ]
      else rest

  abbrev pub is_kept : ContextSection → Bool
  is_kept victim = elim victim.messages [ [] ↦ true | m ∷ ms ↦ victim.priority == 0 ]

  -- What is left to the victim.
  abbrev pub target : (overall : ℕ) → List ContextSection → ContextSection → ℕ
  unfolding tokens total
  target overall sections victim = tokens kit victim.messages - (total kit sections - overall)

  -- The loop of the global cap; `none` means that the fuel ran out.
  unfoldable pub compress_all :
      (overall : ℕ) → (fuel : ℕ) → List ContextSection → Option (List ContextSection)
  unfolding worst put_messages tokens total shrink
  compress_all overall fuel [] = some []
  compress_all overall zero (s ∷ sections) =
      if ltb overall (total kit (s ∷ sections)) then none else some (s ∷ sections)
  compress_all overall (suc fuel) (s ∷ sections) =
      let all = s ∷ sections in
      let victim = worst s sections in
      let less =
        put_messages victim.name
          (shrink kit victim.name (target overall all victim) victim.messages) all in
      let rest = compress_all overall fuel less in
      if ltb overall (total kit all) && (if is_kept victim then false else true)
      then rest
      else some all

  -- The caps of the sections.
  abbrev pub capped : ContextBudget → ContextSection → ContextSection
  unfolding shrink limit_for tokens
  capped budget s =
      if ltb (limit_for budget s.name) (tokens kit s.messages)
      then record s { messages = shrink kit s.name (limit_for budget s.name) s.messages }
      else s

  abbrev pub is_relevant : (min_relevance : ℕ) → ContextSection → Bool
  is_relevant min_relevance s = leb min_relevance s.relevance || leb s.priority 10

  abbrev pub laid_out : Option (List ContextSection) → Option (List Message)
  unfolding sorted_from flattened
  laid_out none = none
  laid_out (some sections) = some (flattened (sorted_from [] sections))

  -- `build`
  unfoldable pub build :
      (fuel : ℕ) → ContextBudget → (min_relevance : ℕ) → List ContextSection → Option (List Message)
  unfolding compress_all sorted_from flattened shrink limit_for tokens total
  build fuel budget min_relevance sections = laid_out (
      compress_all (budget.max_tokens - budget.reserve_output) fuel
        (map (capped budget) (filter (is_relevant min_relevance) sections)))
