-- ===== src/Base/Dict.antt =====
-- Python's `dict` with string keys, as an association list in the order of insertion: a write to
-- a key that is there keeps its place, a new key goes to the end.
use coflowai.Base.Tests.{if◌then◌else◌, Bool-cases}
use mathlib.Core.Logic.{inl, inr}
use Prim.Native.String.{String}
use mathlib.Core.Path.{◌≡◌, refl}
use mathlib.Core.Bool.{Bool, true, false}
use mathlib.Core.Option.{Option, none, some}
use mathlib.Core.List.{List, [], ◌∷◌}
use native.Mathlib.Omega.{arith}
use text.Mathlib.Text.{◌==◌}
use text.Mathlib.TextEquality.{eq_iff}
use text.Mathlib.TextPositions.{eq_refl}

abbrev pub Dict {ℓ} : Type ℓ → Type ℓ
Dict V = List (String × V)

module _ {ℓ} {V : Type ℓ} where
  -- d.get(k)
  unfoldable pub get : Dict V → String → Option V
  get [] k = none
  get ((j, v) ∷ d) k = if j == k then some v else get d k

  -- d[k] = v
  unfoldable pub put : Dict V → String → V → Dict V
  put [] k v = (k, v) ∷ []
  put ((j, w) ∷ d) k v = if j == k then (j, v) ∷ d else (j, w) ∷ put d k v

  -- d.pop(k, None)
  unfoldable pub remove : Dict V → String → Dict V
  remove [] k = []
  remove ((j, w) ∷ d) k = let rest = remove d k in if j == k then rest else (j, w) ∷ rest

  -- k in d
  unfoldable pub has : Dict V → String → Bool
  has [] k = false
  has ((j, w) ∷ d) k = if j == k then true else has d k

  -- list(d.values())
  unfoldable pub values : Dict V → List V
  values [] = []
  values ((j, w) ∷ d) = w ∷ values d

  pub get-put :
      (d : Dict V) (k j : String) (v : V) → get (put d k v) j ≡ (if k == j then some v else get d j)
  unfolding get put
  get-put [] k j v = refl
  get-put ((i, w) ∷ d) k j v = ground (arith, eq_iff k j, eq_iff i k, eq_iff i j, get-put d k j v)

  pub get-put_self : (d : Dict V) (k : String) (v : V) → get (put d k v) k ≡ some v
  get-put_self d k v = simp (get-put, eq_refl)

  pub get-remove :
      (d : Dict V) (k j : String) → get (remove d k) j ≡ (if k == j then none else get d j)
  unfolding get remove
  get-remove [] k j = ground arith
  get-remove ((i, w) ∷ d) k j = ground (arith, eq_iff k j, eq_iff i k, eq_iff i j, get-remove d k j)

  pub has-put :
      (d : Dict V) (k j : String) (v : V) → has (put d k v) j ≡ (if k == j then true else has d j)
  unfolding has put
  has-put [] k j v = refl
  has-put ((i, w) ∷ d) k j v = ground (arith, eq_iff k j, eq_iff i k, eq_iff i j, has-put d k j v)

  pub has-remove :
      (d : Dict V) (k j : String) → has (remove d k) j ≡ (if k == j then false else has d j)
  unfolding has remove
  has-remove [] k j = ground arith
  has-remove ((i, w) ∷ d) k j = ground (arith, eq_iff k j, eq_iff i k, eq_iff i j, has-remove d k j)

  pub has_of_get : (d : Dict V) (k : String) (v : V) → get d k ≡ some v → has d k ≡ true
  unfolding has get
  has_of_get [] k v h = cc
  has_of_get ((i, w) ∷ d) k v h = ground (arith, has_of_get d k v)

  pub get_of_not_has : (d : Dict V) (k : String) → has d k ≡ false → get d k ≡ none
  unfolding has get
  get_of_not_has [] k h = refl
  get_of_not_has ((i, w) ∷ d) k h = ground (arith, get_of_not_has d k)

  pub get_of_has : (d : Dict V) (k : String) → has d k ≡ true → (v : V) × (get d k ≡ some v)
  unfolding has get
  get_of_has [] k h = cc
  get_of_has ((i, w) ∷ d) k h = elim (Bool-cases (i == k)) [
    | inl e ↦ (w, rw e)
    | inr e ↦ rw e (get_of_has d k (ground arith))
  ]

pub ruleset dict_laws = (get-put, get-remove, has-put, has-remove, eq_refl)
