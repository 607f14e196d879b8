-- ===== src/Policies/Permissions/Algebra.antt =====
-- `union` and `intersect` of coflowai/policies/permissions.py against what the sets allow.
use coflowai.Base.{
  ◌≡◌, refl, subst, ◌↔◌, ◌⊎◌, inl, inr, true, ◌||◌, List, [], ◌∷◌, ◌++◌, Option, none, some, filter,
  arith, Bool-cases, or-eq-true,
}
use coflowai.Policies.Permissions.{Text, text_eq, member, dot, star, allows, union, intersect}
use coflowai.Policies.Permissions.Grants.{Grants, everything, listed, below, allows_iff}

text_eq-eq : (s t : Text) → text_eq s t ≡ true → s ≡ t
text_eq-eq [] [] h = refl
text_eq-eq [] (b ∷ t) h = cc
text_eq-eq (a ∷ s) [] h = cc
text_eq-eq (a ∷ s) (b ∷ t) h = ground (arith, text_eq-eq s t)

member-eq :
    (q : List Text) (s t : Text) → text_eq s t ≡ true → member q s ≡ true → member q t ≡ true
member-eq q s t e m = subst (λ u. member q u ≡ true) (text_eq-eq s t e) m

member-append : (p q : List Text) (t : Text) → member (p ++ q) t ≡ (member p t || member q t)
member-append [] q t = refl
member-append (s ∷ p) q t = ground (arith, member-append p q t)

member-filter :
    (p q : List Text) (t : Text)
    → member (filter (member q) p) t ≡ true
    → (member p t ≡ true) × (member q t ≡ true)
member-filter [] q t h = cc
member-filter (s ∷ p) q t h = ground (arith, member-filter p q t, member-eq q s t)

-- What grants more listed texts grants more.
abbrev Includes : List Text → List Text → Type 0
Includes p q = (t : Text) → member q t ≡ true → member p t ≡ true

Grants-Includes : (p q : List Text) (r : Text) → Includes p q → Grants q r → Grants p r
Grants-Includes p q r i (everything m) = everything (i _ m)
Grants-Includes p q r i (listed m) = listed (i _ m)
Grants-Includes p q r i (below a b e m) = below a b e (i _ m)

allows-Includes :
    (p q : List Text) (r : Option Text) → Includes p q → allows q r ≡ true → allows p r ≡ true
allows-Includes p q none i h = (allows_iff p none).1 tt
allows-Includes p q (some []) i h = (allows_iff p (some [])).1 tt
allows-Includes p q (some (c ∷ s)) i h =
    (allows_iff p (some (c ∷ s))).1
      (Grants-Includes p q (c ∷ s) i ((allows_iff q (some (c ∷ s))).0 h))

allows-everything :
    (p : List Text) (r : Option Text) → member p (star ∷ []) ≡ true → allows p r ≡ true
allows-everything p none m = (allows_iff p none).1 tt
allows-everything p (some []) m = (allows_iff p (some [])).1 tt
allows-everything p (some (c ∷ s)) m = (allows_iff p (some (c ∷ s))).1 (everything m)

-- Least privilege: what the intersection of two permission sets allows, both sets allow.
pub allows-intersect :
    (p q : List Text) (r : Option Text)
    → allows (intersect p q) r ≡ true
    → (allows p r ≡ true) × (allows q r ≡ true)
unfolding intersect
allows-intersect p q r h = elim (Bool-cases (member p (star ∷ []))) [
  | inl a ↦ (allows-everything p r a, rw a at h)
  | inr a ↦ elim (Bool-cases (member q (star ∷ []))) [
    | inl b ↦ (rw (a, b) at h, allows-everything q r b)
    | inr b ↦
        let h' : allows (filter (member q) p) r ≡ true = rw (a, b) at h in
        (
          allows-Includes p _ r (λ t m. (member-filter p q t m).0) h',
          allows-Includes q _ r (λ t m. (member-filter p q t m).1) h',
        )
  ]
]

Grants-union : (p q : List Text) (r : Text) → Grants (union p q) r → (Grants p r) ⊎ (Grants q r)
unfolding union
Grants-union p q r (everything m) =
    elim (or-eq-true (member p (star ∷ [])) (member q (star ∷ [])) (rw member-append at m)) [
      | inl a ↦ inl (everything a)
      | inr b ↦ inr (everything b)
    ]
Grants-union p q r (listed m) =
    elim (or-eq-true (member p r) (member q r) (rw member-append at m)) [
      | inl a ↦ inl (listed a)
      | inr b ↦ inr (listed b)
    ]
Grants-union p q r (below x y e m) =
    let t = x ++ dot ∷ star ∷ [] in
    elim (or-eq-true (member p t) (member q t) (rw member-append at m)) [
      | inl a ↦ inl (below x y e a)
      | inr b ↦ inr (below x y e b)
    ]

union-cases :
    (p q : List Text) (r : Option Text)
    → allows (union p q) r ≡ true
    → (allows p r ≡ true) ⊎ (allows q r ≡ true)
union-cases p q none h = inl ((allows_iff p none).1 tt)
union-cases p q (some []) h = inl ((allows_iff p (some [])).1 tt)
union-cases p q (some (c ∷ s)) h =
    elim (Grants-union p q (c ∷ s) ((allows_iff (union p q) (some (c ∷ s))).0 h)) [
      | inl g ↦ inl ((allows_iff p (some (c ∷ s))).1 g)
      | inr g ↦ inr ((allows_iff q (some (c ∷ s))).1 g)
    ]

Includes-union :
    (p q : List Text) (t : Text)
    → (member p t ≡ true) ⊎ (member q t ≡ true)
    → member (union p q) t ≡ true
unfolding union
Includes-union p q t h = ground (arith, member-append p q t)

-- The union of two permission sets allows exactly what one of them allows.
pub allows-union_iff :
    (p q : List Text) (r : Option Text)
    → (allows (union p q) r ≡ true) ↔ ((allows p r ≡ true) ⊎ (allows q r ≡ true))
allows-union_iff p q r = (
  union-cases p q r,
  elim [
    | inl h ↦ allows-Includes (union p q) p r (λ t m. Includes-union p q t (inl m)) h
    | inr h ↦ allows-Includes (union p q) q r (λ t m. Includes-union p q t (inr m)) h
  ],
)
