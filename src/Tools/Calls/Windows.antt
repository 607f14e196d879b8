-- ===== src/Tools/Calls/Windows.antt =====
-- The window of times of the rate limit in coflowai/tools/executor.py.
use coflowai.Base.{
  ℕ, zero, suc, ◌+◌, ◌-◌, ◌≤◌, ◌<◌, ◌≡◌, refl, ap, ◌∙◌, String, Option, none, some, Bool, true,
  false, List, [], ◌∷◌, ◌++◌, ◌&&◌, length, leb, ltb, str_eq, arith, if◌then◌else◌, Bool-cases, ◌⊎◌,
  inl, inr, eq_refl,
}
use coflowai.Base.Dict
use coflowai.Base.Dict.{Dict, get-put}
use coflowai.Core.Errors.{Result, ok, err}
use coflowai.Tools.Calls.{or_no_times, recent, rate_limit}

-- How many of the times lie between `a` and `b`, both included.
abbrev pub count_in : (a b : ℕ) → List ℕ → ℕ
count_in a b [] = 0
count_in a b (t ∷ ts) = let rest = count_in a b ts in if leb a t && leb t b then rest + 1 else rest

abbrev pub is_ok : Result (Unit {0}) → Bool
is_ok (ok u) = true
is_ok (err e) = false

pub count_in-le : (a b : ℕ) (l : List ℕ) → count_in a b l ≤ length l
count_in-le a b [] = omega arith
count_in-le a b (t ∷ ts) = ground (arith, count_in-le a b ts)

pub count_in-snoc :
    (a b t : ℕ) (l : List ℕ) → count_in a b (l ++ t ∷ []) ≡ count_in a b l + count_in a b (t ∷ [])
count_in-snoc a b t [] = ground arith
count_in-snoc a b t (u ∷ us) = ground (arith, count_in-snoc a b t us)

pub count_in-cons :
    (a b t : ℕ) (l : List ℕ) → count_in a b (t ∷ l) ≡ count_in a b (t ∷ []) + count_in a b l
count_in-cons a b t l = ground arith

pub length-snoc : (t : ℕ) (l : List ℕ) → length (l ++ t ∷ []) ≡ length l + 1
length-snoc t [] = refl
length-snoc t (u ∷ us) = ground (arith, length-snoc t us)

module _ (minute : ℕ) where
  pub length-recent : (now : ℕ) (l : List ℕ) → length (recent minute now l) ≤ length l
  unfolding recent
  length-recent now [] = omega arith
  length-recent now (t ∷ ts) = ground (arith, length-recent now ts)

  -- What is popped lies more than a minute back.
  pub count_in-recent :
      (a now : ℕ) (l : List ℕ)
      → (count_in a (a + minute) l ≡ count_in a (a + minute) (recent minute now l))
        ⊎ (a + minute < now)
  unfolding recent
  count_in-recent a now [] = inl refl
  count_in-recent a now (t ∷ ts) = elim (count_in-recent a now ts) [
    | inr h ↦ inr h
    | inl h ↦ elim (Bool-cases (ltb minute (now - t))) [
      | inr k ↦ inl (rw (k, if◌then◌else◌) refl)
      | inl k ↦ elim (Bool-cases (leb a t && leb t (a + minute))) [
        | inl g ↦ inr (ground arith)
        | inr g ↦ inl (rw (k, if◌then◌else◌) (rw (g, if◌then◌else◌) h))
      ]
    ]
  ]

  abbrev pub window_of : Dict (List ℕ) → String → List ℕ
  window_of windows name = or_no_times (Dict.get windows name)

  window_of-put :
      (d : Dict (List ℕ)) (k j : String) (l : List ℕ)
      → window_of (Dict.put d k l) j ≡ (if str_eq k j then l else window_of d j)
  window_of-put d k j l = ap or_no_times (get-put d k j l) ∙ ground arith

  window_of-put_self :
      (d : Dict (List ℕ)) (k : String) (l : List ℕ) → window_of (Dict.put d k l) k ≡ l
  window_of-put_self d k l = window_of-put d k k l ∙ rw (eq_refl k, if◌then◌else◌) refl

  pub rate_limit-other :
      (now : ℕ) (windows : Dict (List ℕ)) (n name : String) (limit : Option ℕ)
      → str_eq n name ≡ false
      → window_of (rate_limit minute now windows n limit).1 name ≡ window_of windows name
  unfolding rate_limit
  rate_limit-other now windows n name none h = refl
  rate_limit-other now windows n name (some zero) h = refl
  rate_limit-other now windows n name (some (suc k)) h =
      let w = recent minute now (window_of windows n) in
      elim (Bool-cases (leb (suc k) (length w))) [
        | inl g ↦
            rw (g, if◌then◌else◌) (window_of-put windows n name w ∙ rw (h, if◌then◌else◌) refl)
        | inr g ↦
            rw (g, if◌then◌else◌)
              (window_of-put windows n name (w ++ now ∷ []) ∙ rw (h, if◌then◌else◌) refl)
      ]

  -- A call is refused, or it is let through and its time is noted.
  abbrev pub Decided :
      (k now : ℕ) (w : List ℕ) (name : String) → Result (Unit {0}) × Dict (List ℕ) → Type 0
  Decided k now w name p =
      (is_ok p.0 ≡ false) × (window_of p.1 name ≡ w)
      ⊎ (is_ok p.0 ≡ true) × (length w ≤ k) × (window_of p.1 name ≡ w ++ now ∷ [])

  pub rate_limit-Decided :
      (now : ℕ) (windows : Dict (List ℕ)) (name : String) (k : ℕ)
      → Decided k now
          (recent minute now (window_of windows name))
          name
          (rate_limit minute now windows name (some (suc k)))
  unfolding rate_limit
  rate_limit-Decided now windows name k =
      let w = recent minute now (window_of windows name) in
      elim (Bool-cases (leb (suc k) (length w))) [
        | inl g ↦ rw (g, if◌then◌else◌) (inl (refl, window_of-put_self windows name w))
        | inr g ↦
            rw (g, if◌then◌else◌)
              (inr (refl, ground arith, window_of-put_self windows name (w ++ now ∷ [])))
      ]
