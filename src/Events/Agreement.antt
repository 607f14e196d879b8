-- ===== src/Events/Agreement.antt =====
-- The two event stores of coflowai/events/store.py, beside the list of what is published.
use coflowai.Base.{
  ℕ, ◌+◌, ◌≡◌, refl, ap, ◌∙◌, sym, String, true, false, Option, none, some, Value, map, List, [],
  ◌∷◌, ◌++◌, filter, length, str_eq, eq_iff, arith, Bool-cases, inl, inr, if◌then◌else◌,
  length-append,
}
use mathlib.Core.List.{append_assoc, append-nil}
use coflowai.Base.Dict.{get, get-put}
use coflowai.Core.Context.{Event}
use coflowai.Events.InMemory
use coflowai.Events.InMemory.{numbered}
use coflowai.Events.Jsonl
use coflowai.Events.Jsonl.{Json, read, to_dict, from_dict, field_at, bind_event, put_first}

-- The events of an execution among those published, with the numbers from `n` on.
abbrev pub published : (n : ℕ) → String → List Event → List Event
published n id [] = []
published n id (e ∷ es) =
    let later = record e { sequence = n } ∷ published (n + 1) id es in
    let same = published n id es in if str_eq e.execution_id id then later else same

-- `append` of one event after the other, in either store.
abbrev pub append_all : {S : Type 0} → (S → Event → S) → S → List Event → S
append_all append store [] = store
append_all append store (e ∷ es) = append_all append (append store e) es

-- `append` of one event after the other to a file, up to an exception, and `get_events` after it.
abbrev pub append_lines : {Line : Type 0} → Json Line → List Line → List Event → Option (List Line)
append_lines json file [] = some file
append_lines json file (e ∷ es) = elim (Jsonl.append json file e) [
  | none ↦ none
  | some longer ↦ append_lines json longer es
]

abbrev pub then_append :
    {Line : Type 0} → Json Line → List Event → Option (List Line) → Option (List Line)
then_append json es none = none
then_append json es (some file) = append_lines json file es

abbrev pub get_from :
    {Line : Type 0} → Json Line → Option (List Line) → String → Option (List Event)
get_from json none id = none
get_from json (some file) id = Jsonl.get_events json file id

-- What `append` does to the events of an execution.
abbrev next_events : List Event → Event → List Event
next_events old e = old ++ numbered e (length old + 1) ∷ []

-- A store whose `append` numbers an event and puts it behind those of its execution.
abbrev IsLog : {S : Type 0} → (S → String → List Event) → (S → Event → S) → Type 0
IsLog {S} read_of append =
    (store : S) (e : Event) (id : String)
    → read_of (append store e) id ≡ (
        if str_eq e.execution_id id
        then next_events (read_of store e.execution_id) e
        else read_of store id)

in_memory-IsLog : IsLog InMemory.get_events InMemory.append
unfolding InMemory.get_events InMemory.append
in_memory-IsLog store e id = rw get-put (ground arith)

filter-append_one :
    (id : String) (xs : List Event) (e : Event)
    → filter (λ (x : Event). str_eq x.execution_id id) (xs ++ e ∷ []) ≡ (
        if str_eq e.execution_id id
        then filter (λ (x : Event). str_eq x.execution_id id) xs ++ e ∷ []
        else filter (λ (x : Event). str_eq x.execution_id id) xs)
filter-append_one id [] e = ground arith
filter-append_one id (x ∷ xs) e = ground (arith, filter-append_one id xs e)

-- The file as a list of its events.
abbrev events_for : List Event → String → List Event
events_for es id = filter (λ (x : Event). str_eq x.execution_id id) es

abbrev add_event : List Event → Event → List Event
add_event es e = es ++ numbered e (length (events_for es e.execution_id) + 1) ∷ []

events-IsLog : IsLog events_for add_event
events-IsLog es e id =
    let new = numbered e (length (events_for es e.execution_id) + 1) in
    filter-append_one id es new ∙ elim (Bool-cases (str_eq e.execution_id id)) [
      | inl h ↦
          rw (h, if◌then◌else◌)
            (ap (λ j. events_for es j ++ new ∷ []) (sym ((eq_iff e.execution_id id).0 h)))
      | inr h ↦ rw (h, if◌then◌else◌) refl
    ]

module _ {S : Type 0} (read_of : S → String → List Event) (append : S → Event → S)
    (log : IsLog read_of append) where
  read-own :
      (store : S) (id : String) (e : Event)
      → str_eq e.execution_id id ≡ true
      → read_of (append store e) id ≡ next_events (read_of store id) e
  read-own store id e h =
      let same : read_of (append store e) id ≡ next_events (read_of store e.execution_id) e =
        log store e id ∙ rw (h, if◌then◌else◌) refl in
      same ∙ ap (λ j. next_events (read_of store j) e) ((eq_iff e.execution_id id).0 h)

  read-other :
      (store : S) (id : String) (e : Event)
      → str_eq e.execution_id id ≡ false
      → read_of (append store e) id ≡ read_of store id
  read-other store id e h = log store e id ∙ rw (h, if◌then◌else◌) refl

  append_all-published :
      (store : S) (id : String) (es : List Event)
      → read_of (append_all append store es) id
        ≡ read_of store id ++ published (length (read_of store id) + 1) id es
  append_all-published store id [] = sym (append-nil (read_of store id))
  append_all-published store id (e ∷ es) =
      let old = read_of store id in
      let new = numbered e (length old + 1) in
      let behind : List Event → List Event = λ l. l ++ published (length l + 1) id es in
      let ih = append_all-published (append store e) id es in
      elim (Bool-cases (str_eq e.execution_id id)) [
        | inl h ↦
            rw (h, if◌then◌else◌)
              (ih
                ∙ ap behind (read-own store id e h)
                ∙ ap (λ n. (old ++ new ∷ []) ++ published (n + 1) id es)
                    (length-append old (new ∷ []))
                ∙ append_assoc old (new ∷ []) (published (length old + 1 + 1) id es))
        | inr h ↦ rw (h, if◌then◌else◌) (ih ∙ ap behind (read-other store id e h))
      ]

from_dict-to_dict : (e : Event) → from_dict (to_dict e) ≡ some e
unfolding to_dict from_dict field_at
from_dict-to_dict e = by_node e.node_id
  where
    by_node :
        (n : Option String)
        → from_dict (to_dict (record e { node_id = n })) ≡ some (record e { node_id = n })
    by_node none = refl
    by_node (some id) = refl

module _ {Line : Type 0} (json : Json Line)
    (written : (v : Value) → json.loads (json.dumps v) ≡ some v)
    (solid : (v : Value) → json.is_blank (json.dumps v) ≡ false) where
  abbrev lines_of : List Event → List Line
  lines_of es = map (λ (e : Event). json.dumps (to_dict e)) es

  read-lines_of : (es : List Event) → read json (lines_of es) ≡ some es
  unfolding read
  read-lines_of [] = refl
  read-lines_of (e ∷ es) =
      rw (solid (to_dict e), if◌then◌else◌)
        (ap (λ o. put_first (bind_event o) (read json (lines_of es))) (written (to_dict e))
          ∙ ap (λ o. put_first o (read json (lines_of es))) (from_dict-to_dict e)
          ∙ ap (put_first (some e)) (read-lines_of es))

  get_events-lines_of :
      (es : List Event) (id : String)
      → Jsonl.get_events json (lines_of es) id ≡ some (events_for es id)
  unfolding Jsonl.get_events
  get_events-lines_of es id =
      ap
        (λ o. elim o as (λ _. Option (List Event)) [
          | none ↦ none
          | some l ↦ some (events_for l id)
        ])
        (read-lines_of es)

  lines_of-append : (xs ys : List Event) → lines_of (xs ++ ys) ≡ lines_of xs ++ lines_of ys
  lines_of-append [] ys = refl
  lines_of-append (x ∷ xs) ys = ap (λ l. json.dumps (to_dict x) ∷ l) (lines_of-append xs ys)

  append-lines_of :
      (es : List Event) (e : Event)
      → Jsonl.append json (lines_of es) e ≡ some (lines_of (add_event es e))
  unfolding Jsonl.append
  append-lines_of es e =
      ap
        (λ o. elim o as (λ _. Option (List Line)) [
          | none ↦ none
          | some l ↦ some (lines_of es ++ json.dumps (to_dict (numbered e (length l + 1))) ∷ [])
        ])
        (get_events-lines_of es e.execution_id)
      ∙ ap some
          (sym (lines_of-append es (numbered e (length (events_for es e.execution_id) + 1) ∷ [])))

  append_lines-lines_of :
      (es new : List Event)
      → append_lines json (lines_of es) new ≡ some (lines_of (append_all add_event es new))
  append_lines-lines_of es [] = refl
  append_lines-lines_of es (e ∷ new) =
      ap (then_append json new) (append-lines_of es e) ∙ append_lines-lines_of (add_event es e) new

-- Both stores, empty at first, return for each execution exactly the events that were published for
-- it, unchanged, in the order in which they were published and numbered 1, 2, 3 and so on. The
-- file-backed store does so, and raises nothing, if what `json` writes is no blank line and is read
-- back as it was.
pub stores_agree :
    {Line : Type 0} (json : Json Line)
    → ((v : Value) → json.loads (json.dumps v) ≡ some v)
    → ((v : Value) → json.is_blank (json.dumps v) ≡ false)
    → (events : List Event) (id : String)
    → (InMemory.get_events (append_all InMemory.append [] events) id ≡ published 1 id events)
      × (get_from json (append_lines json [] events) id ≡ some (published 1 id events))
stores_agree json written solid events id = (
  unfold InMemory.get_events get in
      append_all-published InMemory.get_events InMemory.append in_memory-IsLog [] id events,
  ap (λ file. get_from json file id) (append_lines-lines_of json written solid [] events)
      ∙ get_events-lines_of json written solid (append_all add_event [] events) id
      ∙ ap some (append_all-published events_for add_event events-IsLog [] id events),
)
