-- ===== src/Tools/Calls/Limiting.antt =====
-- What the rate limit of coflowai/tools/executor.py admits in a row of calls.
use coflowai.Base.{
  ℕ, suc, ◌+◌, ◌≤◌, ◌<◌, ◌≡◌, refl, ap, ◌∙◌, sym, subst, String, Option, some, true, false, List,
  [], ◌∷◌, ◌&&◌, length, str_eq, arith, if◌then◌else◌, Bool-cases, inl, inr, eq_iff,
}
use coflowai.Base.Dict
use coflowai.Base.Dict.{Dict}
use coflowai.Tools.Calls.{recent, rate_limit}
use coflowai.Tools.Calls.Windows.{
  count_in, is_ok, count_in-le, count_in-snoc, count_in-cons, length-snoc, length-recent,
  count_in-recent, window_of, rate_limit-other, Decided, rate_limit-Decided,
}

-- The times of the calls never go back.
abbrev pub Rising : ℕ → List (String × ℕ) → Type 0
Rising last [] = Unit
Rising last ((n, t) ∷ calls) = (last ≤ t) × Rising t calls

module _ (minute : ℕ) where
  module _ (limits : String → Option ℕ) (name : String) where
    -- The times at which a call of the tool `name` is let through.
    unfoldable pub admitted : Dict (List ℕ) → List (String × ℕ) → List ℕ
    unfolding rate_limit
    admitted windows [] = []
    admitted windows ((n, now) ∷ calls) =
        let (r, windows') = rate_limit minute now windows n (limits n) in
        let rest = admitted windows' calls in if str_eq n name && is_ok r then now ∷ rest else rest

    admitted-skip :
        (windows : Dict (List ℕ)) (n : String) (t : ℕ) (calls : List (String × ℕ))
        → (str_eq n name && is_ok (rate_limit minute t windows n (limits n)).0) ≡ false
        → admitted windows ((n, t) ∷ calls)
          ≡ admitted (rate_limit minute t windows n (limits n)).1 calls
    unfolding admitted
    admitted-skip windows n t calls h = rw (h, if◌then◌else◌) refl

    admitted-take :
        (windows : Dict (List ℕ)) (n : String) (t : ℕ) (calls : List (String × ℕ))
        → (str_eq n name && is_ok (rate_limit minute t windows n (limits n)).0) ≡ true
        → admitted windows ((n, t) ∷ calls)
          ≡ t ∷ admitted (rate_limit minute t windows n (limits n)).1 calls
    unfolding admitted
    admitted-take windows n t calls h = rw (h, if◌then◌else◌) refl

    admitted-later :
        (a last : ℕ) (windows : Dict (List ℕ)) (calls : List (String × ℕ))
        → Rising last calls
        → a + minute < last
        → count_in a (a + minute) (admitted windows calls) ≡ 0
    unfolding admitted
    admitted-later a last windows [] r h = refl
    admitted-later a last windows ((n, t) ∷ calls) r h =
        let (o, windows') = rate_limit minute t windows n (limits n) in
        let rest : count_in a (a + minute) (admitted windows' calls) ≡ 0 =
          admitted-later a t windows' calls r.1 (omega (arith, r.0)) in
        elim (Bool-cases (str_eq n name && is_ok o)) [
          | inl g ↦ rw (g, if◌then◌else◌) (ground (arith, rest))
          | inr g ↦ rw (g, if◌then◌else◌) rest
        ]

    module _ (k : ℕ) (limited : limits name ≡ some (suc k)) where
      abbrev Bounded : Dict (List ℕ) → List (String × ℕ) → Type 0
      Bounded windows calls =
          (a : ℕ)
          → count_in a (a + minute) (window_of minute windows name)
              + count_in a (a + minute) (admitted windows calls)
            ≤ suc k

      self_Decided :
          (t : ℕ) (windows : Dict (List ℕ)) (n : String)
          → str_eq n name ≡ true
          → Decided minute k t
              (recent minute t (window_of minute windows name))
              name
              (rate_limit minute t windows n (limits n))
      self_Decided t windows n h =
          subst (Decided minute k t (recent minute t (window_of minute windows name)) name)
            (sym (
              ap (λ m. rate_limit minute t windows m (limits m)) ((eq_iff n name).0 h)
              ∙ ap (rate_limit minute t windows name) limited))
            (rate_limit-Decided minute t windows name k)

      -- The times of the window that is left, and of the calls from `t` on.
      Bounded-recent :
          (t : ℕ) (w rest : List ℕ) (a : ℕ)
          → length w ≤ suc k
          → (a + minute < t → count_in a (a + minute) rest ≡ 0)
          → count_in a (a + minute) (recent minute t w) + count_in a (a + minute) rest ≤ suc k
          → count_in a (a + minute) w + count_in a (a + minute) rest ≤ suc k
      Bounded-recent t w rest a l late h = elim (count_in-recent minute a t w) [
        | inl e ↦ omega (arith, e)
        | inr g ↦ omega (arith, late g, count_in-le a (a + minute) w)
      ]

      window_length :
          (windows windows' : Dict (List ℕ)) (t : ℕ) (w : List ℕ)
          → length w ≤ suc k
          → window_of minute windows' name ≡ recent minute t w
          → length (window_of minute windows' name) ≤ suc k
      window_length windows windows' t w l e = omega (arith, ap length e, length-recent minute t w)

      bounded :
          (last : ℕ) (windows : Dict (List ℕ)) (calls : List (String × ℕ))
          → Rising last calls
          → length (window_of minute windows name) ≤ suc k
          → Bounded windows calls
      bounded last windows [] r l a = omega (
        arith,
        count_in-le a (a + minute) (window_of minute windows name),
        ap (count_in a (a + minute)) (admitted_nil windows),
      )
        where
          admitted_nil : (windows : Dict (List ℕ)) → admitted windows [] ≡ []
          admitted_nil windows = unfold admitted in refl
      bounded last windows ((n, t) ∷ calls) r l a =
          let (o, windows') = rate_limit minute t windows n (limits n) in
          let w = window_of minute windows name in
          let rest = admitted windows' calls in
          let count = count_in a (a + minute) in
          let later : a + minute < t → count rest ≡ 0 =
            λ g. admitted-later a t windows' calls r.1 g in
          elim (Bool-cases (str_eq n name)) [
            | inr h ↦
                let same : window_of minute windows' name ≡ w =
                  rate_limit-other minute t windows n name (limits n) h in
                let ih = bounded t windows' calls r.1 (omega (arith, ap length same)) a in
                omega (
                  arith,
                  ih,
                  ap count same,
                  ap count (admitted-skip windows n t calls (ground arith)),
                )
            | inl h ↦ elim (self_Decided t windows n h) [
              | inl (refused, same) ↦
                  let ih =
                    bounded t windows' calls r.1 (window_length windows windows' t w l same) a in
                  let sum = Bounded-recent t w rest a l later (omega (arith, ih, ap count same)) in
                  omega (arith, sum, ap count (admitted-skip windows n t calls (ground arith)))
              | inr (taken, short, same) ↦
                  let ih =
                    bounded t windows' calls r.1
                      (omega (arith, ap length same, length-snoc t (recent minute t w))) a in
                  let split = count_in-cons a (a + minute) t rest in
                  let sum =
                    Bounded-recent t w (t ∷ rest) a l (λ g. ground (arith, later g))
                      (omega (
                        arith,
                        ih,
                        split,
                        ap count same,
                        count_in-snoc a (a + minute) t (recent minute t w),
                      )) in
                  omega (arith, sum, ap count (admitted-take windows n t calls (ground arith)))
            ]
          ]

      -- The clock does not go back. In a row of calls of any tools, from an empty record on, no more
      -- calls of the tool `name` are let through than its limit allows, within any minute.
      pub admitted-le :
          (calls : List (String × ℕ)) (a : ℕ)
          → Rising 0 calls
          → count_in a (a + minute) (admitted [] calls) ≤ suc k
      unfolding Dict.get
      admitted-le calls a r = omega (arith, bounded 0 [] calls r (omega arith) a)
