-- ===== src/Models/Registry/Routing.antt =====
-- Which model the routing of coflowai/models/registry.py selects.
use coflowai.Base.{
  ℕ, ◌≡◌, String, Bool, true, false, List, [], ◌∷◌, filter, arith, if◌then◌else◌, Bool-cases, inl,
  inr, Among, first, later,
}
use coflowai.Base.Dict
use coflowai.Base.Dict.{Dict}
use coflowai.Core.Errors.{Result, ok, err}
use coflowai.Models.Registry.{
  RegisteredModel, ModelRegistry, key_ltb, is_candidate, rank_key, least, select_among, select,
}

not_below : (a b c : ℕ × ℕ) → key_ltb b a ≡ false → key_ltb c b ≡ false → key_ltb c a ≡ false
not_below (a0, a1) (b0, b1) (c0, c1) h k = ground arith

below_not : (a b : ℕ × ℕ) → key_ltb a b ≡ true → key_ltb b a ≡ false
below_not (a0, a1) (b0, b1) h = ground arith

irreflexive : (a : ℕ × ℕ) → key_ltb a a ≡ false
irreflexive (a0, a1) = ground arith

module _ {P : Type 0} (key : RegisteredModel P → ℕ × ℕ) where
  -- No model of the list has a smaller key.
  abbrev pub IsLeast : RegisteredModel P → List (RegisteredModel P) → Type 0
  IsLeast m l = (n : RegisteredModel P) → Among n l → key_ltb (key n) (key m) ≡ false

  least-below :
      (best : RegisteredModel P) (l : List (RegisteredModel P))
      → key_ltb (key best) (key (least key best l)) ≡ false
  unfolding least
  least-below best [] = irreflexive (key best)
  least-below best (m ∷ ms) = elim (Bool-cases (key_ltb (key m) (key best))) [
    | inl h ↦
        rw (h, if◌then◌else◌)
          (not_below (key (least key m ms)) (key m) (key best) (least-below m ms)
            (below_not (key m) (key best) h))
    | inr h ↦ rw (h, if◌then◌else◌) (least-below best ms)
  ]

  least-IsLeast :
      (best : RegisteredModel P) (l : List (RegisteredModel P)) → IsLeast (least key best l) l
  unfolding least
  least-IsLeast best [] n a = elim a [ ]
  least-IsLeast best (m ∷ ms) n first = elim (Bool-cases (key_ltb (key m) (key best))) [
    | inl h ↦ rw (h, if◌then◌else◌) (least-below m ms)
    | inr h ↦
        rw (h, if◌then◌else◌)
          (not_below (key (least key best ms)) (key best) (key m) (least-below best ms) h)
  ]
  least-IsLeast best (m ∷ ms) n (later a) =
      least-IsLeast (if key_ltb (key m) (key best) then m else best) ms n a

  least-Among :
      (best : RegisteredModel P) (l : List (RegisteredModel P))
      → Among (least key best l) (best ∷ l)
  unfolding least
  least-Among best [] = first
  least-Among best (m ∷ ms) = elim (Bool-cases (key_ltb (key m) (key best))) [
    | inl h ↦ rw (h, if◌then◌else◌) (later (least-Among m ms))
    | inr h ↦ rw (h, if◌then◌else◌) (weaken (least-Among best ms))
  ]
    where
      weaken : {x : RegisteredModel P} → Among x (best ∷ ms) → Among x (best ∷ m ∷ ms)
      weaken first = first
      weaken (later a) = later (later a)

module _ {P : Type 0} (keep : RegisteredModel P → Bool) where
  kept-Among :
      (m : RegisteredModel P) (ms : List (RegisteredModel P)) (x : RegisteredModel P)
      → keep m ≡ true
      → Among x (m ∷ filter keep ms)
      → (Among x (filter keep ms) → Among x ms × (keep x ≡ true))
      → Among x (m ∷ ms) × (keep x ≡ true)
  kept-Among m ms x h first ih = (first, h)
  kept-Among m ms x h (later b) ih = let got = ih b in (later got.0, got.1)

  Among-filter :
      (x : RegisteredModel P) (l : List (RegisteredModel P))
      → Among x (filter keep l)
      → Among x l × (keep x ≡ true)
  Among-filter x [] a = elim a [ ]
  Among-filter x (m ∷ ms) a = elim (Bool-cases (keep m)) [
    | inl h ↦ kept-Among m ms x h (rw (h, if◌then◌else◌) at a) (Among-filter x ms)
    | inr h ↦ let got = Among-filter x ms (rw (h, if◌then◌else◌) at a) in (later got.0, got.1)
  ]

  filter-Among :
      (x : RegisteredModel P) {l : List (RegisteredModel P)}
      → keep x ≡ true
      → Among x l
      → Among x (filter keep l)
  filter-Among x k first = rw (k, if◌then◌else◌) first
  filter-Among x k (later {y} {xs} a) = elim (Bool-cases (keep y)) [
    | inl h ↦ rw (h, if◌then◌else◌) (later (filter-Among x k a))
    | inr h ↦ rw (h, if◌then◌else◌) (filter-Among x k a)
  ]

-- What a selection says of the registered models.
abbrev pub Selected :
    {P : Type 0}
    → Dict Bool
    → (prefer : String) → (tags : List String) → List (RegisteredModel P)
    → Result (RegisteredModel P)
    → Type 0
Selected {P} requirements prefer tags models (ok m) =
    Among m models
    × (is_candidate requirements tags m ≡ true)
    × ((n : RegisteredModel P)
        → Among n models
        → is_candidate requirements tags n ≡ true
        → key_ltb (rank_key prefer n) (rank_key prefer m) ≡ false)
Selected {P} requirements prefer tags models (err e) =
    (n : RegisteredModel P) → Among n models → is_candidate requirements tags n ≡ false

Among-none : {P : Type 0} {x : RegisteredModel P} (b : Bool) → (b ≡ true → Among x []) → b ≡ false
Among-none b h = elim (Bool-cases b) [ inl e ↦ elim (h e) [ ] | inr e ↦ e ]

module _ {P : Type 0} (key : RegisteredModel P → ℕ × ℕ) (m : RegisteredModel P)
    (ms : List (RegisteredModel P)) where
  least-first :
      (n : RegisteredModel P) → Among n (m ∷ ms) → key_ltb (key n) (key (least key m ms)) ≡ false
  least-first n first = least-below key m ms
  least-first n (later a) = least-IsLeast key m ms n a

module _ {P : Type 0} (requirements : Dict Bool) (prefer : String) (tags : List String)
    (models : List (RegisteredModel P)) where
  select_among-Selected :
      (l : List (RegisteredModel P))
      → ((x : RegisteredModel P)
          → Among x l
          → Among x (filter (is_candidate requirements tags) models))
      → ((x : RegisteredModel P)
          → Among x (filter (is_candidate requirements tags) models)
          → Among x l)
      → Selected requirements prefer tags models (select_among prefer l)
  unfolding select_among
  select_among-Selected [] f g = λ n a.
      Among-none (is_candidate requirements tags n)
        (λ k. g n (filter-Among (is_candidate requirements tags) n k a))
  select_among-Selected (m ∷ ms) f g =
      let kept =
        Among-filter (is_candidate requirements tags) (least (rank_key prefer) m ms) models
          (f _ (least-Among (rank_key prefer) m ms)) in
      (
        kept.0,
        kept.1,
        λ n a k.
            least-first (rank_key prefer) m ms n
              (g n (filter-Among (is_candidate requirements tags) n k a)),
      )

-- `select` returns a registered model that satisfies the requirements and has the tags, and none
-- that does so ranks before it by the preference; it raises only if no registered model does so.
pub select_lem :
    {P : Type 0} (r : ModelRegistry P) (requirements : Dict Bool) (prefer : String)
    (tags : List String)
    → Selected requirements prefer tags (Dict.values r.models) (select r requirements prefer tags)
unfolding select
select_lem r requirements prefer tags =
    select_among-Selected requirements prefer tags (Dict.values r.models)
      (filter (is_candidate requirements tags) (Dict.values r.models)) (λ x a. a) (λ x a. a)
