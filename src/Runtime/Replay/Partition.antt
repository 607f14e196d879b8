-- ===== src/Runtime/Replay/Partition.antt =====
-- How `from_events` of coflowai/runtime/replay.py divides the events into steps.
use coflowai.Base.{
  ℕ, suc, ◌≡◌, refl, ap, ◌∙◌, sym, subst, String, Option, none, some, List, [], ◌∷◌, ◌++◌, All,
  All-append, if◌then◌else◌, Bool-cases, ◌⊎◌, inl, inr, Value,
}
use mathlib.Core.List.{append_assoc}
use coflowai.Runtime.Replay.{
  Recorded, ReplayStep, step_starter, ends_with, begun, extended, to_list, continued, steps_from,
  from_events,
}

abbrev pub IsPlain : Recorded → Type 0
IsPlain e = step_starter e.event.type ≡ none

-- The first event begins a step of the kind, and the others begin none.
abbrev pub Begins : String → List Recorded → Type 0
Begins kind [] = ⊥
Begins kind (e ∷ es) = (step_starter e.event.type ≡ some kind) × All IsPlain es

-- The steps have the numbers from `i` on, and each has the events from one that begins it to the next.
abbrev pub Steps : (i : ℕ) → List ReplayStep → Type 0
Steps i [] = Unit
Steps i (s ∷ steps) = (s.index ≡ i) × Begins s.kind s.events × Steps (suc i) steps

abbrev pub events_in : List ReplayStep → List Recorded
events_in [] = []
events_in (s ∷ steps) = s.events ++ events_in steps

Begins-append :
    (kind : String) (es : List Recorded) (e : Recorded)
    → Begins kind es
    → IsPlain e
    → Begins kind (es ++ e ∷ [])
Begins-append kind [] e h p = elim h [ ]
Begins-append kind (x ∷ xs) e h p = (h.0, All-append IsPlain xs (e ∷ []) h.1 (p, tt))

option_cases : (o : Option String) → (o ≡ none) ⊎ ((k : String) × (o ≡ some k))
option_cases none = inl refl
option_cases (some k) = inr (k, refl)

-- The events before the first step, and the steps.
pub record IsPartition (es : List Recorded) (steps : List ReplayStep) : Type 0 where
  pub before : List Recorded
  pub split : es ≡ before ++ events_in steps
  pub plain : All IsPlain before
  pub stepwise : Steps 1 steps

module _ (text_of : Value → String) where
  -- A step with one event more.
  abbrev Grown : ReplayStep → Recorded → ReplayStep → Type 0
  Grown s e t = (t.index ≡ s.index) × (t.kind ≡ s.kind) × (t.events ≡ s.events ++ e ∷ [])

  extended-Grown : (s : ReplayStep) (e : Recorded) → Grown s e (extended text_of s e)
  unfolding extended
  extended-Grown s e = elim (Bool-cases (ends_with e.event.type ".completed")) [
    | inl g ↦ rw (g, if◌then◌else◌) (refl, refl, refl)
    | inr g ↦ elim (Bool-cases (ends_with e.event.type ".failed")) [
      | inl h ↦ rw (g, h, if◌then◌else◌) (refl, refl, refl)
      | inr h ↦ elim (Bool-cases (ends_with e.event.type ".denied")) [
        | inl k ↦ rw (g, h, k, if◌then◌else◌) (refl, refl, refl)
        | inr k ↦ rw (g, h, k, if◌then◌else◌) (refl, refl, refl)
      ]
    ]
  ]

  steps_from-starter :
      (i : ℕ) (current : Option ReplayStep) (e : Recorded) (es : List Recorded) (kind : String)
      → step_starter e.event.type ≡ some kind
      → steps_from text_of i current (e ∷ es)
        ≡ to_list text_of current
          ++ steps_from text_of (suc i) (some (begun text_of (suc i) kind e)) es
  unfolding steps_from
  steps_from-starter i current e es kind h = rw (h, steps_from) refl

  steps_from-plain :
      (i : ℕ) (current : Option ReplayStep) (e : Recorded) (es : List Recorded)
      → IsPlain e
      → steps_from text_of i current (e ∷ es)
        ≡ steps_from text_of i (continued text_of current e) es
  unfolding steps_from
  steps_from-plain i current e es h = rw (h, steps_from) refl

  -- The events of the steps are these, and the steps are as they should be.
  abbrev Holds : ℕ → List Recorded → List ReplayStep → Type 0
  Holds i es steps = (events_in steps ≡ es) × Steps i steps

  -- From a step under way on, the steps hold its events and all that follow.
  steps_from-some :
      (i : ℕ) (s : ReplayStep) (es : List Recorded)
      → s.index ≡ i
      → Begins s.kind s.events
      → Holds i (s.events ++ es) (steps_from text_of i (some s) es)
  unfolding begun
  steps_from-some i s [] h b = unfold steps_from in (refl, (h, b, tt))
  steps_from-some i s (e ∷ es) h b = elim (option_cases (step_starter e.event.type)) [
    | inl p ↦
        let t = extended text_of s e in
        let g = extended-Grown s e in
        let longer = Begins-append s.kind s.events e b p in
        let begins : Begins t.kind t.events =
          subst (λ k. Begins k t.events) (sym g.1) (subst (Begins s.kind) (sym g.2) longer) in
        let ih = steps_from-some i t es (g.0 ∙ h) begins in
        subst (Holds i (s.events ++ e ∷ es)) (sym (steps_from-plain i (some s) e es p))
          (ih.0 ∙ ap (λ l. l ++ es) g.2 ∙ append_assoc s.events (e ∷ []) es, ih.1)
    | inr q ↦
        let next = begun text_of (suc i) q.0 e in
        let ih = steps_from-some (suc i) next es refl (q.1, tt) in
        subst (Holds i (s.events ++ e ∷ es)) (sym (steps_from-starter i (some s) e es q.0 q.1))
          (ap (λ l. s.events ++ l) (ih.0), (h, b, ih.1))
  ]

  -- The steps of a trace, with the events before the first one that begins a step, have every event
  -- once and in order. A step has the event that begins it and those up to the next one that begins
  -- a step, and the steps are numbered from 1.
  pub from_events-IsPartition : (es : List Recorded) → IsPartition es (from_events text_of es)
  unfolding begun from_events
  from_events-IsPartition es = from es
    where
      from : (es : List Recorded) → IsPartition es (steps_from text_of 0 none es)
      from [] =
          unfold steps_from in (record { before = []; split = refl; plain = tt; stepwise = tt })
      from (e ∷ es) = elim (option_cases (step_starter e.event.type)) [
        | inl p ↦
            let ih = from es in
            subst (IsPartition (e ∷ es)) (sym (steps_from-plain 0 none e es p)) (record {
              before = e ∷ ih.before;
              split = ap (λ l. e ∷ l) ih.split;
              plain = (p, ih.plain);
              stepwise = ih.stepwise;
            })
        | inr q ↦
            let next = begun text_of 1 q.0 e in
            let h = steps_from-some 1 next es refl (q.1, tt) in
            subst (IsPartition (e ∷ es)) (sym (steps_from-starter 0 none e es q.0 q.1))
              (record { before = []; split = sym h.0; plain = tt; stepwise = h.1 })
      ]
