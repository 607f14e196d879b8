-- ===== src/Policies/Permissions/Dots.antt =====
-- `split` and `join` of coflowai/policies/permissions.py undo one another.
use coflowai.Base.{
  ℕ, ◌==◌, ◌≡◌, refl, ap, ◌∙◌, sym, List, [], ◌∷◌, ◌++◌, arith, Bool-cases, inl, inr,
}
use mathlib.Core.List.{append_assoc}
use coflowai.Policies.Permissions.{Text, dot, extend, split, join}

pub split-cons : (s : Text) → (p : Text) × (ps : List Text) × (split s ≡ p ∷ ps)
unfolding split
split-cons [] = ([], [], refl)
split-cons (c ∷ s) =
    let (p, ps, e) = split-cons s in
    elim (Bool-cases (c == dot)) [ inl d ↦ ([], split s, rw d) | inr d ↦ (c ∷ p, ps, rw (d, e)) ]

-- The parts of a text in two halves round a dot.
pub split-append_dot : (p q : Text) → split (p ++ dot ∷ q) ≡ split p ++ split q
unfolding split
split-append_dot [] q = refl
split-append_dot (c ∷ p) q =
    let (x, xs, e) = split-cons p in
    elim (Bool-cases (c == dot)) [
      | inl d ↦ rw (d, split-append_dot p q)
      | inr d ↦ rw (d, split-append_dot p q, e)
    ]

join-cons : (p x : Text) (xs ps : List Text) → ps ≡ x ∷ xs → join (p ∷ ps) ≡ p ++ (dot ∷ join ps)
join-cons p x xs ps e = rw e

join-extend :
    (c : ℕ) (x : Text) (xs ps : List Text) → ps ≡ x ∷ xs → join (extend c ps) ≡ c ∷ join ps
join-extend c x [] ps e = rw e
join-extend c x (y ∷ ys) ps e = rw e

-- Joining the parts of a text gives the text back.
pub join-split : (s : Text) → join (split s) ≡ s
unfolding split
join-split [] = refl
join-split (c ∷ s) =
    let (x, xs, e) = split-cons s in
    elim (Bool-cases (c == dot)) [
      | inl d ↦ rw (d, join-cons [] x xs (split s) e, join-split s) (ap (λ a. a ∷ s) (ground arith))
      | inr d ↦ rw (d, join-extend c x xs (split s) e, join-split s)
    ]

pub join-append :
    (x y : Text) (xs ys : List Text)
    → join ((x ∷ xs) ++ (y ∷ ys)) ≡ join (x ∷ xs) ++ (dot ∷ join (y ∷ ys))
join-append x y [] ys = refl
join-append x y (z ∷ zs) ys =
    ap (λ t. x ++ (dot ∷ t)) (join-append z y zs ys)
    ∙ sym (append_assoc x (dot ∷ join (z ∷ zs)) (dot ∷ join (y ∷ ys)))
