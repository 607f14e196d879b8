-- ===== src/Policies/Permissions/Grants.antt =====
-- What `PermissionSet.allows` of coflowai/policies/permissions.py decides, said without the loop
-- over the segments.
use coflowai.Base.{
  ℕ, zero, suc, ◌≤◌, ◌<◌, ◌≡◌, refl, ap, sym, ◌∙◌, ◌↔◌, inl, inr, true, List, [], ◌∷◌, ◌++◌, Option,
  none, some, length, take, take-length-append, length-append, arith, Bool-cases, ℕ_discrete,
  or-eq-true, ltb, ◌-◌, lt→ltb,
}
use coflowai.Policies.Permissions.{
  Text, member, dot, star, split, join, wildcard, scan, allows_text, allows,
}
use coflowai.Policies.Permissions.Dots.{split-cons, split-append_dot, join-split, join-append}

-- A text is granted if everything is, if it is listed itself, or if it lies below a listed `p.*`.
pub data Grants (granted : List Text) (r : Text) : Type 0 where
  everything : member granted (star ∷ []) ≡ true → Grants granted r
  listed : member granted r ≡ true → Grants granted r
  below :
      (p q : Text)
      → r ≡ p ++ dot ∷ q
      → member granted (p ++ dot ∷ star ∷ []) ≡ true
      → Grants granted r

module _ (granted segments : List Text) where
  -- A prefix that the loop meets is found.
  scan-hit :
      (i n : ℕ)
      → suc i ≤ n
      → member granted (wildcard segments (suc i)) ≡ true
      → scan granted segments n ≡ true
  unfolding scan
  scan-hit i zero h m = absurd (omega arith)
  scan-hit i (suc n) h m = elim (ℕ_discrete i n) [
    | yes e ↦ ground (arith, ap (λ k. member granted (wildcard segments (suc k))) e)
    | no ne ↦ ground (arith, scan-hit i n (omega arith) m)
  ]

  -- What the loop finds is such a prefix.
  scan-found :
      (n : ℕ)
      → scan granted segments n ≡ true
      → (i : ℕ) × (suc i ≤ n) × (member granted (wildcard segments (suc i)) ≡ true)
  unfolding scan
  scan-found zero h = cc
  scan-found (suc n) h = elim (Bool-cases (member granted (wildcard segments (suc n)))) [
    | inl m ↦ (n, omega arith, m)
    | inr m ↦ let (i, b, f) = scan-found n (ground arith) in (i, omega arith, f)
  ]

wildcard_above :
    (segments : List Text) (n : ℕ)
    → wildcard segments (suc (suc n)) ≡ join (take (suc n) segments ++ ((star ∷ []) ∷ []))
unfolding wildcard
wildcard_above segments n =
    let e : suc (suc n) - 1 ≡ suc n = omega arith in
    let t : ltb 1 (suc (suc n)) ≡ true = lt→ltb 1 (suc (suc n)) (omega arith) in rw (t, e)

-- The prefix that ends with the first part of a list cut in two.
wildcard-append :
    (x : Text) (xs ys : List Text)
    → wildcard ((x ∷ xs) ++ ys) (suc (length (x ∷ xs))) ≡ join (x ∷ xs) ++ (dot ∷ star ∷ [])
wildcard-append x xs ys =
    wildcard_above ((x ∷ xs) ++ ys) (length xs)
    ∙ ap (λ l. join (l ++ ((star ∷ []) ∷ []))) (take-length-append (x ∷ xs) ys)
    ∙ join-append x (star ∷ []) xs []

-- A list cut at a place inside it.
cut :
    (n : ℕ) (l : List Text)
    → suc n < length l
    → (x y : Text) × (xs ys : List Text) × (l ≡ (x ∷ xs) ++ (y ∷ ys)) × (length xs ≡ n)
cut n [] h = elim h [ ]
cut n (a ∷ []) h = absurd (omega arith)
cut zero (a ∷ b ∷ l) h = (a, b, [], l, refl, refl)
cut (suc n) (a ∷ b ∷ l) h =
    let (x, y, xs, ys, e, k) = cut n (b ∷ l) (omega arith) in
    (a, y, x ∷ xs, ys, ap (λ t. a ∷ t) e, ap suc k)

hit_below :
    (granted : List Text) (p q : Text)
    → member granted (p ++ dot ∷ star ∷ []) ≡ true
    → scan granted (split (p ++ dot ∷ q)) (length (split (p ++ dot ∷ q))) ≡ true
hit_below granted p q m =
    let (x, xs, ex) = split-cons p in
    let (y, ys, ey) = split-cons q in
    let whole : split (p ++ dot ∷ q) ≡ (x ∷ xs) ++ (y ∷ ys) = rw (split-append_dot p q, ex, ey) in
    let back : join (x ∷ xs) ≡ p = rw (← ex) (join-split p) in
    let at : member granted (wildcard ((x ∷ xs) ++ (y ∷ ys)) (suc (length (x ∷ xs)))) ≡ true =
      rw (wildcard-append x xs (y ∷ ys), back) m in
    rw whole (
      scan-hit granted ((x ∷ xs) ++ (y ∷ ys)) (length (x ∷ xs)) (length ((x ∷ xs) ++ (y ∷ ys)))
        (omega (arith, length-append (x ∷ xs) (y ∷ ys))) at)

Grants-allows_text :
    (granted : List Text) (r : Text) → Grants granted r → allows_text granted r ≡ true
unfolding allows_text
Grants-allows_text granted r (everything m) = ground arith
Grants-allows_text granted r (listed m) = ground arith
Grants-allows_text granted r (below p q e m) =
    let found = hit_below granted p q m in
    ground (arith, ap (λ t. scan granted (split t) (length (split t))) e)

found-Grants :
    (granted : List Text) (r : Text) (i : ℕ)
    → suc i ≤ length (split r)
    → member granted (wildcard (split r) (suc i)) ≡ true
    → Grants granted r
found-Grants granted r zero h m = everything (unfold wildcard in m)
found-Grants granted r (suc n) h m =
    let (x, y, xs, ys, e, k) = cut n (split r) h in
    let r_eq : r ≡ join (x ∷ xs) ++ dot ∷ join (y ∷ ys) =
      sym (join-split r) ∙ ap join e ∙ join-append x y xs ys in
    below (join (x ∷ xs)) (join (y ∷ ys)) r_eq
      (rw (← wildcard-append x xs (y ∷ ys)) (rw (← e, k) m))

allows_text-Grants :
    (granted : List Text) (r : Text) → allows_text granted r ≡ true → Grants granted r
unfolding allows_text
allows_text-Grants granted r h = elim (or-eq-true _ _ h) [
  | inl direct ↦ elim (or-eq-true _ _ direct) [ inl m ↦ everything m | inr m ↦ listed m ]
  | inr found ↦
      let (i, b, m) = scan-found granted (split r) (length (split r)) found in
      found-Grants granted r i b m
]

abbrev pub Permitted : List Text → Option Text → Type 0
Permitted granted none = Unit
Permitted granted (some []) = Unit
Permitted granted (some (c ∷ s)) = Grants granted (c ∷ s)

-- `allows` holds exactly when no permission is required, everything is granted, the permission is
-- listed, or a listed `p.*` has the permission below it: `required` is `p`, a dot and some rest.
pub allows_iff :
    (granted : List Text) (required : Option Text)
    → (allows granted required ≡ true) ↔ Permitted granted required
unfolding allows
allows_iff granted none = (λ h. tt, λ u. refl)
allows_iff granted (some []) = (λ h. tt, λ u. refl)
allows_iff granted (some (c ∷ s)) =
    (allows_text-Grants granted (c ∷ s), Grants-allows_text granted (c ∷ s))
