-- ===== src/Workflows/Compiler/Cycles.antt =====
-- What `_validate_acyclic` of coflowai/workflows/compiler.py accepts.
use coflowai.Base.{
  ℕ, zero, suc, ◌≤◌, ◌<◌, ◌≡◌, ap, ◌∙◌, sym, subst, String, Option, none, some, Bool, true, false,
  not, List, [], ◌∷◌, map, length, contains, sum_by, arith, str_eq, eq_iff, eq_refl, if◌then◌else◌,
  Bool-cases, or-eq-true, inl, inr,
}
use coflowai.Core.Errors.{Result, ok, err}
use coflowai.Workflows.Compiler.{
  Edge, successors, Walk, after_walk, walk, blackened, visit, verdict, validate_acyclic,
}

module _ (edges : List Edge) where
  -- A path of at least one edge.
  pub data EdgePath (a : String) : String → Type 0 where
    edge : {b : String} → contains (successors edges a) b ≡ true → EdgePath a b
    further : {m c : String} → EdgePath a m → contains (successors edges m) c ≡ true → EdgePath a c

  abbrev pub IsCyclic : Type 0
  IsCyclic = (a : String) × EdgePath a a

  -- The successors of a node stand behind it.
  abbrev Sorted : List String → Type 0
  Sorted [] = Unit
  Sorted (b ∷ bs) =
      ((m : String) → contains (successors edges b) m ≡ true → contains bs m ≡ true) × Sorted bs

  succ-closed :
      (bs : List String) (x y : String)
      → Sorted bs
      → contains bs x ≡ true
      → contains (successors edges x) y ≡ true
      → contains bs y ≡ true
  succ-closed [] x y s h e = ground arith
  succ-closed (b ∷ bs) x y s h e = elim (or-eq-true (str_eq b x) (contains bs x) h) [
    | inl here ↦
        let behind = s.0 y (ap (λ c. contains (successors edges c) y) ((eq_iff b x).0 here) ∙ e) in
        ground arith
    | inr there ↦ let behind = succ-closed bs x y s.1 there e in ground arith
  ]

  EdgePath-closed :
      (b : String) (bs : List String) (y : String)
      → Sorted (b ∷ bs)
      → EdgePath b y
      → contains bs y ≡ true
  EdgePath-closed b bs y s (edge e) = s.0 y e
  EdgePath-closed b bs y s (further {m = c} p e) =
      succ-closed bs c y s.1 (EdgePath-closed b bs c s p) e

  -- No cycle goes through the nodes of a sorted list.
  Sorted-acyclic :
      (bs : List String) (x : String) → Sorted bs → contains bs x ≡ true → EdgePath x x → ⊥
  Sorted-acyclic [] x s h p = ground arith
  Sorted-acyclic (b ∷ bs) x s h p = elim (or-eq-true (str_eq b x) (contains bs x) h) [
    | inr there ↦ Sorted-acyclic bs x s.1 there p
    | inl here ↦
        let same = (eq_iff b x).0 here in
        let q : EdgePath b b = subst (λ c. EdgePath c c) (sym same) p in
        Sorted-acyclic bs b s.1 (EdgePath-closed b bs b s q) q
  ]

  -- What a walk over nodes from black ones leads to.
  abbrev Outcome : (black nodes : List String) → Walk → Type 0
  Outcome black nodes none = ⊥
  Outcome black nodes (some (err e)) = IsCyclic
  Outcome black nodes (some (ok done)) =
      Sorted done
      × ((x : String) → contains black x ≡ true → contains done x ≡ true)
      × ((x : String) → contains nodes x ≡ true → contains done x ≡ true)

  -- One node more was black.
  widen :
      (black b : List String) (n : String) (ns : List String) (r : Walk)
      → ((x : String) → contains black x ≡ true → contains b x ≡ true)
      → contains b n ≡ true
      → Outcome b ns r
      → Outcome black (n ∷ ns) r
  widen black b n ns none k i h = h
  widen black b n ns (some (err e)) k i h = h
  widen black b n ns (some (ok done)) k i h = (
    h.0,
    (λ x g. h.1 x (k x g)),
    (λ x g. elim (or-eq-true (str_eq n x) (contains ns x) g) [
      | inl here ↦ sym (ap (contains done) ((eq_iff n x).0 here)) ∙ h.1 n i
      | inr there ↦ h.2 x there
    ]),
  )

  after_walk-Outcome :
      (black : List String) (n : String) (ns : List String) (r : Walk) (next : List String → Walk)
      → Outcome black (n ∷ []) r
      → ((b : List String) → Sorted b → Outcome b ns (next b))
      → Outcome black (n ∷ ns) (after_walk r next)
  after_walk-Outcome black n ns none next h k = h
  after_walk-Outcome black n ns (some (err e)) next h k = h
  after_walk-Outcome black n ns (some (ok b)) next h k =
      widen black b n ns (next b) h.1 (h.2 n (let same = eq_refl n in ground arith)) (k b h.0)

  blackened-Outcome :
      (black : List String) (n : String) (r : Walk)
      → Outcome black (successors edges n) r
      → Outcome black (n ∷ []) (blackened n r)
  blackened-Outcome black n none h = h
  blackened-Outcome black n (some (err e)) h = h
  blackened-Outcome black n (some (ok done)) h =
      ((h.2, h.0), (λ x g. let old = h.1 x g in ground arith), (λ x g. ground arith))

  walk-Outcome :
      (go : String → List String → Walk) (grey ns black : List String)
      → ((n : String) (b : List String)
          → contains grey n ≡ false
          → contains ns n ≡ true
          → Sorted b
          → Outcome b (n ∷ []) (go n b))
      → ((n : String) → contains grey n ≡ true → contains ns n ≡ true → EdgePath n n)
      → Sorted black
      → Outcome black ns (walk go grey ns black)
  unfolding walk
  walk-Outcome go grey [] black v g s = (s, (λ x h. h), (λ x h. ground arith))
  walk-Outcome go grey (n ∷ ns) black v g s =
      let v' : (m : String) (b : List String)
          → contains grey m ≡ false
          → contains ns m ≡ true
          → Sorted b
          → Outcome b (m ∷ []) (go m b) =
        λ m b w i. v m b w (ground arith) in
      let g' : (m : String) → contains grey m ≡ true → contains ns m ≡ true → EdgePath m m =
        λ m c i. g m c (ground arith) in
      elim (Bool-cases (contains grey n)) [
        | inl grey_n ↦
            rw (grey_n, if◌then◌else◌) (n, g n grey_n (let same = eq_refl n in ground arith))
        | inr w ↦ elim (Bool-cases (contains black n)) [
          | inl old ↦
              rw (w, old, if◌then◌else◌)
                (widen black black n ns (walk go grey ns black) (λ x h. h) old
                  (walk-Outcome go grey ns black v' g' s))
          | inr new ↦
              rw (w, new, if◌then◌else◌)
                (after_walk-Outcome black n ns (go n black) (walk go grey ns)
                  (v n black w (let same = eq_refl n in ground arith) s)
                  (λ b h. walk-Outcome go grey ns b v' g' h))
        ]
      ]

  abbrev one_if : Bool → ℕ
  one_if b = if b then 1 else 0

  -- The edges whose source is not grey.
  abbrev free : List Edge → List String → ℕ
  free es grey = sum_by (λ (e : Edge). one_if (not (contains grey e.source))) es

  free-cons : (es : List Edge) (grey : List String) (n : String) → free es (n ∷ grey) ≤ free es grey
  free-cons [] grey n = omega arith
  free-cons (e ∷ es) grey n = ground (arith, free-cons es grey n)

  free-empty : (es : List Edge) → free es [] ≤ length es
  free-empty [] = omega arith
  free-empty (e ∷ es) = ground (arith, free-empty es)

  white_source :
      (grey : List String) (a n : String)
      → str_eq a n ≡ true
      → contains grey n ≡ false
      → contains grey a ≡ false
  white_source grey a n e h = ap (contains grey) ((eq_iff a n).0 e) ∙ h

  free-source :
      (es : List Edge) (grey : List String) (n m : String)
      → contains grey n ≡ false
      → contains (successors es n) m ≡ true
      → free es (n ∷ grey) < free es grey
  unfolding successors
  free-source [] grey n m w h = ground arith
  free-source (e ∷ es) grey n m w h = elim (Bool-cases (str_eq e.source n)) [
    | inl here ↦ ground (
      arith,
      free-cons es grey n,
      white_source grey e.source n,
      eq_iff e.source n,
      eq_iff n e.source,
    )
    | inr other ↦
        let rest : contains (successors es n) m ≡ true =
          subst (λ b. contains (if b then e.target ∷ successors es n else successors es n) m ≡ true)
            other h in
        ground (arith, free-source es grey n m w rest, eq_iff e.source n, eq_iff n e.source)
  ]

  visit-Outcome :
      (fuel : ℕ) (grey : List String) (n : String) (black : List String)
      → free edges grey < fuel
      → contains grey n ≡ false
      → ((x : String) → contains grey x ≡ true → EdgePath x n)
      → Sorted black
      → Outcome black (n ∷ []) (visit edges fuel grey n black)
  unfolding visit
  visit-Outcome zero grey n black f w p s = ground arith
  visit-Outcome (suc fuel) grey n black f w p s =
      let longer : (x m : String)
          → contains (n ∷ grey) x ≡ true
          → contains (successors edges n) m ≡ true
          → EdgePath x m =
        λ x m h e. elim (or-eq-true (str_eq n x) (contains grey x) h) [
          | inl here ↦ subst (λ c. EdgePath c m) ((eq_iff n x).0 here) (edge e)
          | inr there ↦ further (p x there) e
        ] in
      blackened-Outcome black n
        (walk (visit edges fuel (n ∷ grey)) (n ∷ grey) (successors edges n) black)
        (walk-Outcome (visit edges fuel (n ∷ grey)) (n ∷ grey) (successors edges n) black
          (λ m b w' e s'.
            let less = free-source edges grey n m w e in
            visit-Outcome fuel (n ∷ grey) m b (omega arith) w' (λ x h. longer x m h e) s')
          (λ m h e. longer m m h e) s)

  successor-source :
      (es : List Edge) (a m : String)
      → contains (successors es a) m ≡ true
      → contains (map (λ (e : Edge). e.source) es) a ≡ true
  unfolding successors
  successor-source [] a m h = h
  successor-source (e ∷ es) a m h = elim (Bool-cases (str_eq e.source a)) [
    | inl here ↦ ground arith
    | inr other ↦
        let rest : contains (successors es a) m ≡ true =
          subst (λ b. contains (if b then e.target ∷ successors es a else successors es a) m ≡ true)
            other h in
        ground (arith, successor-source es a m rest)
  ]

  EdgePath-source :
      (a b : String) → EdgePath a b → contains (map (λ (e : Edge). e.source) edges) a ≡ true
  EdgePath-source a b (edge e) = successor-source edges a b e
  EdgePath-source a b (further {m = m} p e) = EdgePath-source a m p

  -- The answer tells whether there is a cycle.
  abbrev pub Decides : Option (Result (Unit {0})) → Type 0
  Decides none = ⊥
  Decides (some (ok u)) = ¬ IsCyclic
  Decides (some (err e)) = IsCyclic

  verdict-Decides :
      (r : Walk) → Outcome [] (map (λ (e : Edge). e.source) edges) r → Decides (verdict r)
  verdict-Decides none h = h
  verdict-Decides (some (err e)) h = h
  verdict-Decides (some (ok done)) h =
      λ c. Sorted-acyclic done c.0 h.0 (h.2 c.0 (EdgePath-source c.0 c.0 c.1)) c.1

  -- The check always ends, within its fuel: with an error if there is a path of edges from some id
  -- back to itself, and without one if there is none.
  pub validate_acyclic-Decides : Decides (validate_acyclic edges)
  unfolding validate_acyclic
  validate_acyclic-Decides =
      let sources = map (λ (e : Edge). e.source) edges in
      let enough = free-empty edges in
      verdict-Decides (walk (visit edges (suc (length edges)) []) [] sources []) (
        walk-Outcome (visit edges (suc (length edges)) []) [] sources []
          (λ n b w e s.
            visit-Outcome (suc (length edges)) [] n b (omega arith) w (λ x h. ground arith) s)
          (λ n h e. ground arith) tt)
