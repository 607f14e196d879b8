-- ===== src/Workflows/Compiler/Search.antt =====
-- The search of `_validate_reachability` in coflowai/workflows/compiler.py: it ends within its fuel,
-- and it finds what can be reached.
use coflowai.Base.{
  ℕ, zero, suc, ◌+◌, ◌≤◌, ◌≡◌, refl, ap, ◌∙◌, sym, subst, String, some, Bool, true, false, not,
  ◌||◌, List, [], ◌∷◌, length, contains, sum_by, All, arith, str_eq, eq_iff, eq_refl, if◌then◌else◌,
  Bool-cases, inl, inr,
}
use coflowai.Workflows.Compiler.{Edge, successors, push_new, search_from, reached_from}

-- What an edge path leads to.
pub data Reachable (edges : List Edge) (start : String) : String → Type 0 where
  here : Reachable edges start start
  step :
      {a b : String}
      → Reachable edges start a
      → contains (successors edges a) b ≡ true
      → Reachable edges start b

abbrev one_if : Bool → ℕ
one_if b = if b then 1 else 0

-- The edges whose target is not seen yet.
abbrev unseen : List Edge → List String → ℕ
unseen edges seen = sum_by (λ (e : Edge). one_if (not (contains seen e.target))) edges

abbrev is_target : List Edge → String → Bool
is_target [] n = false
is_target (e ∷ es) n = str_eq e.target n || is_target es n

unseen-cons :
    (edges : List Edge) (seen : List String) (n : String)
    → unseen edges (n ∷ seen) ≤ unseen edges seen
unseen-cons [] seen n = omega arith
unseen-cons (e ∷ es) seen n = ground (arith, unseen-cons es seen n)

contains_same :
    (l : List String) (a b : String)
    → str_eq a b ≡ true
    → contains l b ≡ false
    → contains l a ≡ false
contains_same l a b e h = ap (contains l) ((eq_iff a b).0 e) ∙ h

unseen-target :
    (edges : List Edge) (seen : List String) (n : String)
    → is_target edges n ≡ true
    → contains seen n ≡ false
    → unseen edges (n ∷ seen) + 1 ≤ unseen edges seen
unseen-target [] seen n t h = cc
unseen-target (e ∷ es) seen n t h = ground (
  arith,
  unseen-target es seen n,
  unseen-cons es seen n,
  contains_same seen e.target n,
  eq_iff e.target n,
  eq_iff n e.target,
)

abbrev AreTargets : List Edge → List String → Type 0
AreTargets edges ns = All (λ n. is_target edges n ≡ true) ns

AreTargets-cons :
    (e : Edge) (es : List Edge) (ns : List String) → AreTargets es ns → AreTargets (e ∷ es) ns
AreTargets-cons e es [] h = tt
AreTargets-cons e es (n ∷ ns) h = (ground arith, AreTargets-cons e es ns h.1)

successors-AreTargets : (edges : List Edge) (a : String) → AreTargets edges (successors edges a)
unfolding successors
successors-AreTargets [] a = tt
successors-AreTargets (e ∷ es) a = elim (Bool-cases (str_eq e.source a)) [
  | inl h ↦
      rw (h, if◌then◌else◌)
        (
          rw (eq_refl e.target) refl,
          AreTargets-cons e es (successors es a) (successors-AreTargets es a),
        )
  | inr h ↦
      rw (h, if◌then◌else◌) (AreTargets-cons e es (successors es a) (successors-AreTargets es a))
]

-- A step of `push_new`: on an id that is seen, and on a new one.
push_new-cases :
    (P : List String × List String → Type 0) (n : String) (ns seen stack : List String)
    → (contains seen n ≡ true → P (push_new ns seen stack))
    → (contains seen n ≡ false → P (push_new ns (n ∷ seen) (n ∷ stack)))
    → P (push_new (n ∷ ns) seen stack)
unfolding push_new
push_new-cases P n ns seen stack old new = elim (Bool-cases (contains seen n)) [
  | inl h ↦ subst P (sym (old_step h)) (old h)
  | inr h ↦ subst P (sym (new_step h)) (new h)
]
  where
    old_step : contains seen n ≡ true → push_new (n ∷ ns) seen stack ≡ push_new ns seen stack
    old_step h = rw (h, if◌then◌else◌) refl

    new_step :
        contains seen n ≡ false → push_new (n ∷ ns) seen stack ≡ push_new ns (n ∷ seen) (n ∷ stack)
    new_step h = rw (h, if◌then◌else◌) refl

module _ (edges : List Edge) where
  -- What is left to do.
  abbrev work : List String → List String → ℕ
  work seen stack = unseen edges seen + length stack

  work-push_new :
      (ns seen stack : List String)
      → AreTargets edges ns
      → work (push_new ns seen stack).0 (push_new ns seen stack).1 ≤ work seen stack
  unfolding push_new
  work-push_new [] seen stack t = omega arith
  work-push_new (n ∷ ns) seen stack t =
      push_new-cases (λ p. work p.0 p.1 ≤ work seen stack) n ns seen stack
        (λ h. work-push_new ns seen stack t.1)
        (λ h.
          omega
            (arith, work-push_new ns (n ∷ seen) (n ∷ stack) t.1, unseen-target edges seen n t.0 h))

  search_from-returns :
      (fuel : ℕ) (seen stack : List String)
      → work seen stack ≤ fuel
      → (found : List String) × (search_from edges fuel seen stack ≡ some found)
  unfolding search_from
  search_from-returns fuel seen [] h = (seen, refl)
  search_from-returns zero seen (current ∷ stack) h = absurd (omega arith)
  search_from-returns (suc fuel) seen (current ∷ stack) h =
      let (seen', stack') = push_new (successors edges current) seen stack in
      search_from-returns fuel seen' stack' (
        omega (
          arith,
          work-push_new (successors edges current) seen stack (successors-AreTargets edges current),
        ))

  unseen-le : (es : List Edge) (seen : List String) → unseen es seen ≤ length es
  unseen-le [] seen = omega arith
  unseen-le (e ∷ es) seen = ground (arith, unseen-le es seen)

  -- The fuel is enough.
  pub reached_from-returns :
      (start : String) → (found : List String) × (reached_from edges start ≡ some found)
  unfolding reached_from
  reached_from-returns start =
      search_from-returns (suc (length edges)) (start ∷ []) (start ∷ [])
        (omega (arith, unseen-le edges (start ∷ [])))

-- What `push_new` does to the seen ids and to the stack.
abbrev pub Pushed :
    (ns seen stack : List String) → (a : String) → List String × List String → Type 0
Pushed ns seen stack a p =
    (contains p.0 a ≡ (contains seen a || contains ns a))
    × (contains stack a ≡ true → contains p.1 a ≡ true)
    × (contains ns a ≡ true → contains seen a ≡ false → contains p.1 a ≡ true)
    × (contains p.1 a ≡ true → (contains stack a || contains ns a) ≡ true)

pub contains-push_new :
    (ns seen stack : List String) (a : String) → Pushed ns seen stack a (push_new ns seen stack)
unfolding push_new
contains-push_new [] seen stack a = (ground arith, λ h. h, λ h k. cc, λ h. ground arith)
contains-push_new (n ∷ ns) seen stack a =
    push_new-cases (Pushed (n ∷ ns) seen stack a) n ns seen stack
      (λ h.
        let p = contains-push_new ns seen stack a in
        let same = contains_same seen n a in
        (ground arith, p.1, λ k l. ground arith, λ k. ground arith))
      (λ h.
        let p = contains-push_new ns (n ∷ seen) (n ∷ stack) a in
        (ground arith, λ k. p.1 (ground arith), λ k l. ground arith, λ k. ground arith))
