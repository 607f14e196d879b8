-- ===== src/Models/Streaming.antt =====
-- coflowai/models/streaming.py: chunks, `StreamAccumulator` and `emulate_stream`. The arguments of
-- a tool call are an object, as the type of the field says.
pub mod Emulation
use coflowai.Base.{
  ℕ, suc, String, str_append, Option, none, some, List, [], ◌∷◌, ◌++◌, map, ◌==◌, ltb, str_eq,
  if◌then◌else◌, Value,
}
use coflowai.Base.Json.{Fields}
use coflowai.Core.Messages.{ToolCall, ModelResponse}
use coflowai.Core.Context.{or_text}

pub data ChunkType : Type 0 where
  text tool_call reasoning done : ChunkType

pub record StreamChunk : Type 0 where
  pub type : ChunkType
  pub content : String
  pub call : Option ToolCall
  pub index : ℕ
  pub response : Option ModelResponse

pub record StreamAccumulator : Type 0 where
  pub texts : List String
  pub reasonings : List String
  pub tool_calls : List (ℕ × ToolCall)

abbrev pub new_accumulator : StreamAccumulator
new_accumulator = record { texts = []; reasonings = []; tool_calls = [] }

-- `fields[key] = value`
unfoldable pub put_field : Fields → String → Value → Fields
put_field Fields.end key value = Fields.field key value Fields.end
put_field (Fields.field k v rest) key value =
    let other = Fields.field k v (put_field rest key value) in
    if str_eq k key then Fields.field k value rest else other

-- `fields.update(new)`
unfoldable pub update : Fields → Fields → Fields
unfolding put_field
update fields Fields.end = fields
update fields (Fields.field k v rest) = update (put_field fields k v) rest

abbrev pub updated : Value → Value → Value
unfolding update
updated (Value.object fields) (Value.object new) = Value.object (update fields new)
updated old new = old

-- A call with a further fragment of it.
unfoldable pub merged : ToolCall → ToolCall → ToolCall
unfolding updated
merged existing call = record existing {
  name = if str_eq call.name "" then existing.name else call.name;
  arguments = updated existing.arguments call.arguments;
}

unfoldable pub put_call : List (ℕ × ToolCall) → ℕ → ToolCall → List (ℕ × ToolCall)
unfolding merged
put_call [] index call = (index, call) ∷ []
put_call ((j, existing) ∷ calls) index call =
    let other = (j, existing) ∷ put_call calls index call in
    if j == index then (j, merged existing call) ∷ calls else other

-- `list.append(text)`, if there is a text.
abbrev pub append_text : List String → String → List String
append_text texts s = if str_eq s "" then texts else texts ++ s ∷ []

abbrev pub or_put : List (ℕ × ToolCall) → ℕ → Option ToolCall → List (ℕ × ToolCall)
unfolding put_call
or_put calls index none = calls
or_put calls index (some call) = put_call calls index call

-- `StreamAccumulator.add`
unfoldable pub add : StreamAccumulator → StreamChunk → StreamAccumulator
unfolding or_put
add a chunk = elim chunk.type [
  | text ↦ record a { texts = append_text a.texts chunk.content }
  | reasoning ↦ record a { reasonings = append_text a.reasonings chunk.content }
  | tool_call ↦ record a { tool_calls = or_put a.tool_calls chunk.index chunk.call }
  | done ↦ a
]

-- `"".join(texts)`
unfoldable pub join_texts : List String → String
join_texts [] = ""
join_texts (s ∷ []) = s
join_texts (s ∷ t ∷ texts) = str_append s (join_texts (t ∷ texts))

-- The calls in the order of their keys.
unfoldable pub place_call : ℕ × ToolCall → List (ℕ × ToolCall) → List (ℕ × ToolCall)
place_call e [] = e ∷ []
place_call e (f ∷ calls) =
    let rest = f ∷ place_call e calls in if ltb e.0 f.0 then e ∷ f ∷ calls else rest

unfoldable pub sorted_calls : List (ℕ × ToolCall) → List (ℕ × ToolCall)
unfolding place_call
sorted_calls [] = []
sorted_calls (e ∷ calls) = place_call e (sorted_calls calls)

-- `text or None`
abbrev pub non_empty : String → Option String
non_empty s = if str_eq s "" then none else some s

-- `finish_reason or ("tool_calls" if calls else "stop")`
abbrev pub reason_or : Option String → List ToolCall → Option String
reason_or reason [] = or_text reason (some "stop")
reason_or reason (c ∷ calls) = or_text reason (some "tool_calls")

unfoldable pub build :
    StreamAccumulator
    → (input_tokens output_tokens cached_tokens : ℕ) → (cost : Option ℕ)
    → (finish_reason model : Option String) → ModelResponse
unfolding join_texts sorted_calls
build a input_tokens output_tokens cached_tokens cost finish_reason model =
    let calls = map (λ (e : ℕ × ToolCall). e.1) (sorted_calls a.tool_calls) in
    record {
      text = non_empty (join_texts a.texts);
      tool_calls = calls;
      input_tokens = input_tokens;
      output_tokens = output_tokens;
      cached_tokens = cached_tokens;
      cost = cost;
      finish_reason = reason_or finish_reason calls;
      model = model;
    }

abbrev pub chunk_of : ChunkType → StreamChunk
chunk_of type = record { type = type; content = ""; call = none; index = 0; response = none }

abbrev pub text_chunks : Option String → List StreamChunk
text_chunks none = []
text_chunks (some s) = if str_eq s "" then [] else record (chunk_of text) { content = s } ∷ []

-- The loop over the calls from an index on.
unfoldable pub call_chunks : (index : ℕ) → List ToolCall → List StreamChunk
call_chunks index [] = []
call_chunks index (c ∷ calls) =
    record (chunk_of tool_call) { call = some c; index = index } ∷ call_chunks (suc index) calls

-- `emulate_stream`
unfoldable pub emulate_stream : ModelResponse → List StreamChunk
unfolding call_chunks
emulate_stream r =
    text_chunks r.text
    ++ (call_chunks 0 r.tool_calls ++ record (chunk_of done) { response = some r } ∷ [])

-- `add` of one chunk after the other.
unfoldable pub accumulate : StreamAccumulator → List StreamChunk → StreamAccumulator
unfolding add
accumulate a [] = a
accumulate a (chunk ∷ chunks) = accumulate (add a chunk) chunks
