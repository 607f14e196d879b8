-- ===== src/Workflows/Compiler/Reachability.antt =====
-- What `_validate_reachability` of coflowai/workflows/compiler.py accepts.
use coflowai.Base.{
  ℕ, zero, suc, ◌≡◌, ◌↔◌, refl, ap, ◌∙◌, sym, subst, String, some, Bool, true, false, List, [], ◌∷◌,
  contains, length, All, arith, str_eq, eq_iff, eq_refl, Bool-cases, or-eq-true, ◌⊎◌, inl, inr,
}
use coflowai.Core.Errors.{Result, ok}
use coflowai.Workflows.Compiler.{
  Edge, require, require_seen, successors, push_new, search_from, reached_from, all_seen,
  validate_reachability,
}
use coflowai.Workflows.Compiler.Search.{
  Reachable, here, step, Pushed, contains-push_new, reached_from-returns,
}

module _ (edges : List Edge) (start : String) where
  -- What holds of the seen ids and the stack between two rounds of the search.
  pub record IsPartial (seen stack : List String) : Type 0 where
    pub sound : (a : String) → contains seen a ≡ true → Reachable edges start a
    pub begun : contains seen start ≡ true
    pub queued : (a : String) → contains stack a ≡ true → contains seen a ≡ true
    pub closed :
        (a b : String)
        → contains seen a ≡ true
        → contains (successors edges a) b ≡ true
        → (contains stack a ≡ true) ⊎ (contains seen b ≡ true)

  seen_step :
      (current : String) (seen stack : List String) (p : List String × List String) (a : String)
      → Pushed (successors edges current) seen stack a p
      → IsPartial seen (current ∷ stack)
      → contains p.0 a ≡ true
      → Reachable edges start a
  seen_step current seen stack p a q i h =
      elim (or-eq-true (contains seen a) (contains (successors edges current) a) (sym q.0 ∙ h)) [
        | inl old ↦ i.sound a old
        | inr new ↦ step (i.sound current (i.queued current (rw (eq_refl current) refl))) new
      ]

  closed_step :
      (current : String) (seen stack : List String) (p : List String × List String) (a b : String)
      → Pushed (successors edges current) seen stack a p
      → Pushed (successors edges current) seen stack b p
      → IsPartial seen (current ∷ stack)
      → contains p.0 a ≡ true
      → contains (successors edges a) b ≡ true
      → (contains p.1 a ≡ true) ⊎ (contains p.0 b ≡ true)
  closed_step current seen stack p a b qa qb i h e = elim (Bool-cases (contains seen a)) [
    | inr new ↦ inl (qa.2 (ground arith) new)
    | inl old ↦ elim (i.closed a b old e) [
      | inr there ↦ inr (ground arith)
      | inl waits ↦ elim (or-eq-true (str_eq current a) (contains stack a) waits) [
        | inr later ↦ inl (qa.1 later)
        | inl now ↦
            let succ : contains (successors edges current) b ≡ true =
              ap (λ c. contains (successors edges c) b) ((eq_iff current a).0 now) ∙ e in
            inr (ground arith)
      ]
    ]
  ]

  IsPartial-push_new :
      (current : String) (seen stack : List String)
      → IsPartial seen (current ∷ stack)
      → IsPartial
          (push_new (successors edges current) seen stack).0
          (push_new (successors edges current) seen stack).1
  IsPartial-push_new current seen stack i =
      let p = push_new (successors edges current) seen stack in
      let q = contains-push_new (successors edges current) seen stack in
      record {
        sound = λ a h. seen_step current seen stack p a (q a) i h;
        begun = ground (arith, q start, i.begun);
        queued = λ a h. ground (arith, q a, i.queued a);
        closed = λ a b h e. closed_step current seen stack p a b (q a) (q b) i h e;
      }

  search_from-IsPartial :
      (fuel : ℕ) (seen stack found : List String)
      → IsPartial seen stack
      → search_from edges fuel seen stack ≡ some found
      → IsPartial found []
  unfolding search_from
  search_from-IsPartial fuel seen [] found i h =
      let same : seen ≡ found = cc in subst (λ l. IsPartial l []) same i
  search_from-IsPartial zero seen (current ∷ stack) found i h = cc
  search_from-IsPartial (suc fuel) seen (current ∷ stack) found i h =
      let (seen', stack') = push_new (successors edges current) seen stack in
      search_from-IsPartial fuel seen' stack' found (IsPartial-push_new current seen stack i) h

  start-IsPartial : IsPartial (start ∷ []) (start ∷ [])
  start-IsPartial = record {
    sound = λ a h. subst (Reachable edges start) ((eq_iff start a).0 (ground arith)) here;
    begun = rw (eq_refl start) refl;
    queued = λ a h. h;
    closed = λ a b h e. inl h;
  }

  finds :
      (found : List String) (a : String)
      → IsPartial found []
      → Reachable edges start a
      → contains found a ≡ true
  finds found a i here = i.begun
  finds found b i (step r e) = elim (i.closed _ b (finds found _ i r) e) [
    | inl waits ↦ cc
    | inr there ↦ there
  ]

  pub reached_iff :
      (found : List String) (a : String)
      → reached_from edges start ≡ some found
      → (contains found a ≡ true) ↔ Reachable edges start a
  unfolding reached_from
  reached_iff found a h =
      let i : IsPartial found [] =
        search_from-IsPartial (suc (length edges)) (start ∷ []) (start ∷ []) found start-IsPartial
          h in
      (i.sound a, finds found a i)

all_seen_iff :
    (seen ids : List String) → (all_seen seen ids ≡ true) ↔ All (λ a. contains seen a ≡ true) ids
unfolding all_seen
all_seen_iff seen [] = (λ h. tt, λ h. refl)
all_seen_iff seen (a ∷ ids) = (
  λ h. (ground arith, (all_seen_iff seen ids).0 (ground arith)),
  λ h. ground (arith, h.0, (all_seen_iff seen ids).1 h.1),
)

All-map :
    {P Q : String → Type 0} (ids : List String) → ((a : String) → P a → Q a) → All P ids → All Q ids
All-map [] f h = tt
All-map (a ∷ ids) f h = (f a h.0, All-map ids f h.1)

require_iff : (b : Bool) → (require b ≡ ok tt) ↔ (b ≡ true)
require_iff true = (λ h. refl, λ h. refl)
require_iff false = (λ h. ground arith, λ h. cc)

-- `_validate_reachability` always ends, and it accepts a graph of one node or more exactly when
-- every node can be reached by edges from the first node.
pub validate_reachability_iff :
    (start : String) (ids : List String) (edges : List Edge)
    → (verdict : Result (Unit {0})) × (validate_reachability (start ∷ ids) edges ≡ some verdict)
      × ((verdict ≡ ok tt) ↔ All (Reachable edges start) (start ∷ ids))
unfolding validate_reachability
validate_reachability_iff start [] edges = (ok tt, refl, (λ h. (here, tt), λ h. refl))
validate_reachability_iff start (id ∷ ids) edges =
    let (found, e) = reached_from-returns edges start in
    let all = start ∷ id ∷ ids in
    (
      require (all_seen found all),
      ap (require_seen all) e,
      (
        λ h.
            All-map all (λ a k. (reached_iff edges start found a e).0 k)
              ((all_seen_iff found all).0 ((require_iff (all_seen found all)).0 h)),
        λ h. (require_iff (all_seen found all)).1 (
            (all_seen_iff found all).1
              (All-map all (λ a k. (reached_iff edges start found a e).1 k) h)),
      ),
    )
