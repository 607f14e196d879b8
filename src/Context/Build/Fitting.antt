-- ===== src/Context/Build/Fitting.antt =====
-- The global cap of `build` in coflowai/context/builder.py, where there is no summariser.
use coflowai.Base.{
  ℕ, zero, suc, ◌+◌, ◌≤◌, ◌<◌, ◌≡◌, refl, ap, sym, subst, String, Option, none, some, true, false,
  List, [], ◌∷◌, map, arith, contains, Among, first, later, Distinct, str_eq, eq_iff, eq_refl, ltb,
  ◌==◌, if◌then◌else◌, Bool-cases, ◌⊎◌, inl, inr,
}
use coflowai.Core.Messages.{Message}
use coflowai.Context.Builder.{
  ContextSection, Toolkit, message_tokens, tokens, total, keep_recent, reversed, compressed,
  by_summariser, shrink,
}
use coflowai.Context.Build.{pair_ltb, worst, put_messages, is_kept, target, compress_all}

abbrev pub names : List ContextSection → List String
names sections = map (λ (s : ContextSection). s.name) sections

module _ (kit : Toolkit) where
  keep_recent-le :
      (cap : ℕ) (ms : List Message) (used : ℕ) (kept : List Message)
      → tokens kit kept ≡ used
      → used ≤ cap
      → tokens kit (keep_recent kit cap ms used kept) ≤ cap
  unfolding keep_recent tokens
  keep_recent-le cap [] used kept e h = omega arith
  keep_recent-le cap (m ∷ ms) used kept e h =
      elim (Bool-cases (ltb cap (used + message_tokens kit m))) [
        | inl g ↦ rw (g, if◌then◌else◌) (keep_recent-le cap ms used kept e h)
        | inr g ↦
            rw (g, if◌then◌else◌)
              (keep_recent-le cap ms (used + message_tokens kit m) (m ∷ kept) (omega arith)
                (ground arith))
      ]

  -- What is left is within the cap.
  shrink-le :
      (name : String) (cap : ℕ) (ms : List Message)
      → kit.summariser ≡ none
      → tokens kit (shrink kit name cap ms) ≤ cap
  unfolding shrink
  shrink-le name zero ms h = unfold tokens in omega arith
  shrink-le name (suc c) ms h =
      subst
        (λ f.
          tokens kit (by_summariser kit f name (suc c) (compressed kit name (suc c) ms)) ≤ suc c)
        (sym h)
        (keep_recent-le (suc c) (reversed kit (compressed kit name (suc c) ms) []) 0 []
          (unfold tokens in refl) (omega arith))

  worst-Among :
      (s : ContextSection) (l all : List ContextSection)
      → Among s all
      → ((t : ContextSection) → Among t l → Among t all)
      → Among (worst kit s l) all
  unfolding worst
  worst-Among s [] all h k = h
  worst-Among s (t ∷ ts) all h k =
      elim (Bool-cases
        (pair_ltb s.priority (tokens kit s.messages) t.priority (tokens kit t.messages))) [
          | inl g ↦ rw (g, if◌then◌else◌) (worst-Among t ts all (k t first) (λ u a. k u (later a)))
          | inr g ↦ rw (g, if◌then◌else◌) (worst-Among s ts all h (λ u a. k u (later a)))
        ]

  contains-names :
      (v : ContextSection) (l : List ContextSection) → Among v l → contains (names l) v.name ≡ true
  contains-names v [] a = elim a [ ]
  contains-names v (s ∷ l) first = ground (arith, eq_iff v.name v.name)
  contains-names v (s ∷ l) (later a) = ground (arith, contains-names v l a)

  put_messages-skip :
      (n : String) (ms : List Message) (s : ContextSection) (l : List ContextSection)
      → str_eq s.name n ≡ false
      → put_messages kit n ms (s ∷ l) ≡ s ∷ put_messages kit n ms l
  unfolding put_messages
  put_messages-skip n ms s l h = rw (h, if◌then◌else◌) refl

  put_messages-total_here :
      (s : ContextSection) (n : String) (ms : List Message) (l : List ContextSection)
      → str_eq s.name n ≡ true
      → total kit (put_messages kit n ms (s ∷ l)) ≡ tokens kit ms + total kit l
  unfolding put_messages total tokens
  put_messages-total_here s n [] l h = rw (h, if◌then◌else◌) (omega arith)
  put_messages-total_here s n (m ∷ ms) l h = rw (h, if◌then◌else◌) refl

  other_name :
      (v s : ContextSection) (l : List ContextSection)
      → Among v l
      → contains (names l) s.name ≡ false
      → str_eq s.name v.name ≡ false
  other_name v s l a d = elim (Bool-cases (str_eq s.name v.name)) [
    | inr h ↦ h
    | inl h ↦
        let same : contains (names l) s.name ≡ contains (names l) v.name =
          ap (contains (names l)) ((eq_iff s.name v.name).0 h) in
        let found = contains-names v l a in cc
  ]

  total-cons :
      (s : ContextSection) (l : List ContextSection)
      → total kit (s ∷ l) ≡ tokens kit s.messages + total kit l
  unfolding total
  total-cons s l = refl

  put_messages-total :
      (v : ContextSection) (l : List ContextSection) (ms : List Message)
      → Among v l
      → Distinct (names l)
      → total kit (put_messages kit v.name ms l) + tokens kit v.messages
        ≡ total kit l + tokens kit ms
  put_messages-total v [] ms a d = elim a [ ]
  put_messages-total v (s ∷ l) ms first d =
      omega (arith, put_messages-total_here v v.name ms l (eq_refl v.name), total-cons v l)
  put_messages-total v (s ∷ l) ms (later a) d =
      let skip = put_messages-skip v.name ms s l (other_name v s l a d.0) in
      omega (
        arith,
        ap (total kit) skip,
        total-cons s (put_messages kit v.name ms l),
        total-cons s l,
        put_messages-total v l ms a d.1,
      )

  -- No new name comes in.
  names-put_messages :
      (n x : String) (ms : List Message) (l : List ContextSection)
      → contains (names l) x ≡ false
      → contains (names (put_messages kit n ms l)) x ≡ false
  unfolding put_messages
  names-put_messages n x ms [] h = refl
  names-put_messages n x ms (s ∷ l) h = elim (Bool-cases (str_eq s.name n)) [
    | inl g ↦ rw (g, if◌then◌else◌) (here ms)
    | inr g ↦ rw (g, if◌then◌else◌) (ground (arith, names-put_messages n x ms l))
  ]
    where
      here :
          (ms : List Message)
          → contains (names (elim ms [ [] ↦ l | m ∷ ms ↦ record s { messages = m ∷ ms } ∷ l ])) x
            ≡ false
      here [] = ground arith
      here (m ∷ ms) = h

  put_messages-Distinct :
      (n : String) (ms : List Message) (l : List ContextSection)
      → Distinct (names l)
      → Distinct (names (put_messages kit n ms l))
  unfolding put_messages
  put_messages-Distinct n ms [] d = tt
  put_messages-Distinct n ms (s ∷ l) d = elim (Bool-cases (str_eq s.name n)) [
    | inl g ↦ rw (g, if◌then◌else◌) (here ms)
    | inr g ↦
        rw (g, if◌then◌else◌)
          (names-put_messages n s.name ms l d.0, put_messages-Distinct n ms l d.1)
  ]
    where
      here :
          (ms : List Message)
          → Distinct (names (elim ms [ [] ↦ l | m ∷ ms ↦ record s { messages = m ∷ ms } ∷ l ]))
      here [] = d.1
      here (m ∷ ms) = d

  -- The loop came to an end: the sections are within the cap, or the one that is next to be compressed
  -- is empty or must be kept.
  abbrev pub Fits : ℕ → Option (List ContextSection) → Type 0
  unfolding total worst
  Fits overall none = ⊥
  Fits overall (some []) = Unit
  Fits overall (some (s ∷ l)) = (total kit (s ∷ l) ≤ overall) ⊎ (is_kept kit (worst kit s l) ≡ true)

  tokens-cons : (m : Message) (ms : List Message) → 0 < tokens kit (m ∷ ms)
  unfolding tokens message_tokens
  tokens-cons m ms = omega arith

  -- A victim that is not kept has tokens.
  tokens_of_victim : (v : ContextSection) → is_kept kit v ≡ false → 0 < tokens kit v.messages
  tokens_of_victim v h = of_messages v.messages h
    where
      of_messages :
          (ms : List Message)
          → elim ms [ [] ↦ true | m ∷ rest ↦ v.priority == 0 ] ≡ false
          → 0 < tokens kit ms
      of_messages [] h = ground arith
      of_messages (m ∷ ms) h = tokens-cons m ms

  unfoldable pub shrunk : ℕ → ContextSection → List ContextSection → List ContextSection
  unfolding worst shrink put_messages
  shrunk overall s l =
      put_messages kit (worst kit s l).name
        (shrink kit (worst kit s l).name (target kit overall (s ∷ l) (worst kit s l))
          (worst kit s l).messages)
        (s ∷ l)

  compress_all-small :
      (overall fuel : ℕ) (s : ContextSection) (l : List ContextSection)
      → ltb overall (total kit (s ∷ l)) ≡ false
      → compress_all kit overall fuel (s ∷ l) ≡ some (s ∷ l)
  unfolding compress_all
  compress_all-small overall zero s l h = rw (h, if◌then◌else◌) refl
  compress_all-small overall (suc fuel) s l h = rw (h, if◌then◌else◌) refl

  compress_all-kept :
      (overall fuel : ℕ) (s : ContextSection) (l : List ContextSection)
      → is_kept kit (worst kit s l) ≡ true
      → compress_all kit overall (suc fuel) (s ∷ l) ≡ some (s ∷ l)
  unfolding compress_all
  compress_all-kept overall fuel s l h = elim (Bool-cases (ltb overall (total kit (s ∷ l)))) [
    | inl g ↦ rw (g, h, if◌then◌else◌) refl
    | inr g ↦ compress_all-small overall (suc fuel) s l g
  ]

  pub compress_all-step :
      (overall fuel : ℕ) (s : ContextSection) (l : List ContextSection)
      → ltb overall (total kit (s ∷ l)) ≡ true
      → is_kept kit (worst kit s l) ≡ false
      → compress_all kit overall (suc fuel) (s ∷ l)
        ≡ compress_all kit overall fuel (shrunk overall s l)
  unfolding compress_all shrunk
  compress_all-step overall fuel s l h k = rw (h, k, if◌then◌else◌) refl

  -- A round takes tokens away.
  shrunk-less :
      (overall : ℕ) (s : ContextSection) (l : List ContextSection)
      → kit.summariser ≡ none
      → Distinct (names (s ∷ l))
      → overall < total kit (s ∷ l)
      → is_kept kit (worst kit s l) ≡ false
      → total kit (shrunk overall s l) < total kit (s ∷ l)
  unfolding shrunk target
  shrunk-less overall s l e d h k =
      let victim = worst kit s l in
      let room = target kit overall (s ∷ l) victim in
      let some_tokens = tokens_of_victim victim k in
      let less = shrink-le victim.name room victim.messages e in
      let sum =
        put_messages-total victim (s ∷ l) (shrink kit victim.name room victim.messages)
          (worst-Among s l (s ∷ l) first (λ t a. later a)) d in
      omega arith

  -- Without a summariser the loop of the global cap ends, within as many rounds as there are tokens.
  pub compress_all-Fits :
      (overall fuel : ℕ) (l : List ContextSection)
      → kit.summariser ≡ none
      → Distinct (names l)
      → total kit l ≤ fuel
      → Fits overall (compress_all kit overall fuel l)
  unfolding Fits shrunk put_messages
  compress_all-Fits overall fuel [] e d h = unfold compress_all in tt
  compress_all-Fits overall zero (s ∷ l) e d h =
      subst (Fits overall) (sym (compress_all-small overall zero s l (ground arith)))
        (inl (omega arith))
  compress_all-Fits overall (suc fuel) (s ∷ l) e d h =
      elim (Bool-cases (ltb overall (total kit (s ∷ l)))) [
        | inr g ↦
            subst (Fits overall) (sym (compress_all-small overall (suc fuel) s l g))
              (inl (ground arith))
        | inl g ↦ elim (Bool-cases (is_kept kit (worst kit s l))) [
          | inl k ↦ subst (Fits overall) (sym (compress_all-kept overall fuel s l k)) (inr k)
          | inr k ↦
              let less = shrunk-less overall s l e d (ground arith) k in
              let ih =
                compress_all-Fits overall fuel (shrunk overall s l) e
                  (put_messages-Distinct _ _ (s ∷ l) d) (omega arith) in
              subst (Fits overall) (sym (compress_all-step overall fuel s l g k)) ih
        ]
      ]
