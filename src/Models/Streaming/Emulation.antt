-- ===== src/Models/Streaming/Emulation.antt =====
-- A response that is emulated as a stream and put together again, in coflowai/models/streaming.py.
use coflowai.Base.{
  ℕ, suc, ◌<◌, ◌≡◌, refl, ap, ◌∙◌, sym, String, Option, none, some, true, false, List, [], ◌∷◌,
  ◌++◌, map, All, All-append, arith, ltb, ◌==◌, str_eq, if◌then◌else◌, Bool-cases, inl, inr,
}
use mathlib.Core.List.{append-nil, append_assoc}
use coflowai.Core.Messages.{ToolCall, ModelResponse}
use coflowai.Models.Streaming.{
  ChunkType, StreamChunk, StreamAccumulator, new_accumulator, put_call, add, place_call,
  sorted_calls, join_texts, append_text, non_empty, reason_or, build, text_chunks, call_chunks,
  emulate_stream, accumulate, chunk_of,
}

abbrev numbered : ℕ → List ToolCall → List (ℕ × ToolCall)
numbered k [] = []
numbered k (c ∷ calls) = (k, c) ∷ numbered (suc k) calls

abbrev AreBelow : ℕ → List (ℕ × ToolCall) → Type 0
AreBelow k es = All (λ (e : ℕ × ToolCall). e.0 < k) es

AreBelow-suc : (k : ℕ) (es : List (ℕ × ToolCall)) → AreBelow k es → AreBelow (suc k) es
AreBelow-suc k [] h = tt
AreBelow-suc k (e ∷ es) h = (omega (arith, h.0), AreBelow-suc k es h.1)

-- A new index goes to the end.
put_call-new :
    (es : List (ℕ × ToolCall)) (k : ℕ) (c : ToolCall)
    → AreBelow k es
    → put_call es k c ≡ es ++ (k, c) ∷ []
unfolding put_call
put_call-new [] k c h = refl
put_call-new ((j, d) ∷ es) k c h =
    let other : (j == k) ≡ false = (let less = h.0 in ground arith) in
    rw (other, if◌then◌else◌) (ap (λ l. (j, d) ∷ l) (put_call-new es k c h.1))

accumulate-call_chunks :
    (a : StreamAccumulator) (k : ℕ) (calls : List ToolCall) (r : ModelResponse)
    → AreBelow k a.tool_calls
    → accumulate a
        (call_chunks k calls ++ record (chunk_of ChunkType.done) { response = some r } ∷ [])
      ≡ record a { tool_calls = a.tool_calls ++ numbered k calls }
unfolding accumulate call_chunks add
accumulate-call_chunks a k [] r h =
    ap (λ l. record a { tool_calls = l }) (sym (append-nil a.tool_calls))
accumulate-call_chunks a k (c ∷ calls) r h =
    let put = put_call-new a.tool_calls k c h in
    let a' : StreamAccumulator = record a { tool_calls = a.tool_calls ++ (k, c) ∷ [] } in
    let ih = accumulate-call_chunks a' (suc k) calls r (
      All-append (λ (e : ℕ × ToolCall). e.0 < suc k) a.tool_calls ((k, c) ∷ [])
        (AreBelow-suc k a.tool_calls h) (omega arith, tt)) in
    let last = record (chunk_of ChunkType.done) { response = some r } in
    ap (λ l. accumulate (record a { tool_calls = l }) (call_chunks (suc k) calls ++ last ∷ [])) put
    ∙ ih
    ∙ ap (λ l. record a { tool_calls = l })
        (append_assoc a.tool_calls ((k, c) ∷ []) (numbered (suc k) calls))

sorted_calls-numbered :
    (k : ℕ) (calls : List ToolCall) → sorted_calls (numbered k calls) ≡ numbered k calls
unfolding sorted_calls
sorted_calls-numbered k [] = refl
sorted_calls-numbered k (c ∷ calls) =
    ap (place_call (k, c)) (sorted_calls-numbered (suc k) calls) ∙ placed calls
  where
    placed :
        (calls : List ToolCall)
        → place_call (k, c) (numbered (suc k) calls) ≡ (k, c) ∷ numbered (suc k) calls
    placed [] = refl
    placed (d ∷ ds) =
        (let less : ltb k (suc k) ≡ true = ground arith in rw (less, if◌then◌else◌) refl)

map-numbered :
    (k : ℕ) (calls : List ToolCall) → map (λ (e : ℕ × ToolCall). e.1) (numbered k calls) ≡ calls
map-numbered k [] = refl
map-numbered k (c ∷ calls) = ap (λ l. c ∷ l) (map-numbered (suc k) calls)

-- The response without an empty text, and with a reason why it ended.
abbrev pub normal : ModelResponse → ModelResponse
normal r = record r {
  text = elim r.text [ none ↦ none | some s ↦ non_empty s ];
  finish_reason = reason_or r.finish_reason r.tool_calls;
}

-- What the accumulator gives of the chunks, with the other parts of the response.
abbrev pub rebuilt : ModelResponse → List StreamChunk → ModelResponse
unfolding accumulate build
rebuilt r chunks =
    build (accumulate new_accumulator chunks) r.input_tokens r.output_tokens r.cached_tokens r.cost
      r.finish_reason r.model

module _ (r : ModelResponse) where
  abbrev filled : List String → StreamAccumulator
  filled texts = record { texts = texts; reasonings = []; tool_calls = numbered 0 r.tool_calls }

  build-filled :
      (texts : List String)
      → build
          (filled texts)
          r.input_tokens
          r.output_tokens
          r.cached_tokens
          r.cost
          r.finish_reason
          r.model
        ≡ record (normal r) { text = non_empty (join_texts texts) }
  unfolding build
  build-filled texts =
      ap
        (λ l. record (normal r) {
          text = non_empty (join_texts texts);
          tool_calls = l;
          finish_reason = reason_or r.finish_reason l;
        })
        (ap (map (λ (e : ℕ × ToolCall). e.1)) (sorted_calls-numbered 0 r.tool_calls)
          ∙ map-numbered 0 r.tool_calls)

  accumulate-text_chunks :
      (o : Option String)
      → (texts : List String) × (accumulate new_accumulator (
            text_chunks o
            ++ (call_chunks 0 r.tool_calls
                ++ record (chunk_of ChunkType.done) { response = some r } ∷ []))
          ≡ filled texts)
        × (non_empty (join_texts texts) ≡ elim o [ none ↦ none | some s ↦ non_empty s ])
  unfolding accumulate join_texts add
  accumulate-text_chunks none =
      ([], accumulate-call_chunks new_accumulator 0 r.tool_calls r tt, refl)
  accumulate-text_chunks (some s) = elim (Bool-cases (str_eq s "")) [
    | inl h ↦ (
      [],
      rw (h, if◌then◌else◌) (accumulate-call_chunks new_accumulator 0 r.tool_calls r tt),
      rw (h, if◌then◌else◌) refl,
    )
    | inr h ↦ (s ∷ [], rw (h, if◌then◌else◌) (with_text h), refl)
  ]
    where
      with_text :
          str_eq s "" ≡ false
          → accumulate
              (record { texts = append_text [] s; reasonings = []; tool_calls = [] })
              (call_chunks 0 r.tool_calls
                ++ record (chunk_of ChunkType.done) { response = some r } ∷ [])
            ≡ filled (s ∷ [])
      with_text h =
          let one : append_text [] s ≡ s ∷ [] = rw (h, if◌then◌else◌) refl in
          let start : StreamAccumulator = record {
            texts = s ∷ [];
            reasonings = [];
            tool_calls = [];
          } in
          ap
            (λ l.
              accumulate (record { texts = l; reasonings = []; tool_calls = [] })
                (call_chunks 0 r.tool_calls
                  ++ record (chunk_of ChunkType.done) { response = some r } ∷ []))
            one
          ∙ accumulate-call_chunks start 0 r.tool_calls r tt

  -- A response that is emulated as a stream is put together again as it was, but for an empty text,
  -- which becomes none, and a missing reason for its end, which is filled in.
  pub rebuilt-emulate_stream : rebuilt r (emulate_stream r) ≡ normal r
  unfolding rebuilt emulate_stream
  rebuilt-emulate_stream =
      let (texts, e, f) = accumulate-text_chunks r.text in
      ap
        (λ a. build a r.input_tokens r.output_tokens r.cached_tokens r.cost r.finish_reason r.model)
        e
      ∙ build-filled texts
      ∙ ap (λ t. record (normal r) { text = t }) f
