-- ===== src/Models/Registry.antt =====
-- coflowai/models/registry.py: `ModelRegistry`. The provider is of type `P`; a capability is asked
-- for by its name; costs and latencies are whole numbers of a fixed unit, and a price per million
-- tokens is one of a millionth of it. `register` takes the model that it puts together of its
-- arguments.
pub mod Routing
use coflowai.Base.{
  ℕ, ◌+◌, String, Option, none, some, Bool, true, false, not, ◌&&◌, ◌||◌, ◌==◌, ltb, List, [], ◌∷◌,
  filter, contains, str_eq, if◌then◌else◌,
}
use coflowai.Base.Dict
use coflowai.Base.Dict.{Dict}
use coflowai.Core.Errors.{ErrorClass, Error, plain, Result, ok, err}

pub record RegisteredModel (P : Type 0) : Type 0 where
  pub name : String
  pub provider : P
  pub capability : String → Bool
  pub input_per_million : ℕ
  pub output_per_million : ℕ
  pub cached_input_per_million : ℕ
  pub priority : ℕ
  pub latency_hint : ℕ
  pub fallbacks : List String
  pub tags : List String

pub record ModelRegistry (P : Type 0) : Type 0 where
  pub models : Dict (RegisteredModel P)
  pub default_name : Option String

abbrev configuration_error : Error
configuration_error = plain ErrorClass.configuration_error

abbrev pub is_default : Option String → String → Bool
is_default none name = false
is_default (some d) name = str_eq d name

-- `next(iter(self._models), None)`
abbrev pub first_name {ℓ} : {V : Type ℓ} → Dict V → Option String
first_name [] = none
first_name ((k, v) ∷ rest) = some k

-- `wanted_tags.issubset(m.tags)`
abbrev pub has_all : List String → List String → Bool
has_all tags [] = true
has_all tags (w ∷ ws) = contains tags w && has_all tags ws

-- `default or self._default is None`
abbrev pub new_default : Option String → (default : Bool) → String → Option String
new_default none default name = some name
new_default (some d) default name = if default then some name else some d

-- Tuples are compared by their first parts, then by their second.
abbrev pub key_ltb : ℕ × ℕ → ℕ × ℕ → Bool
key_ltb (a, b) (c, d) = ltb a c || (a == c && ltb b d)

-- `name or self._default`
abbrev pub key_of : Option String → Option String → Option String
key_of none default = default
key_of (some n) default = if str_eq n "" then default else some n

module _ {P : Type 0} where
  abbrev pub cost_hint : RegisteredModel P → ℕ
  cost_hint m = m.input_per_million + m.output_per_million

  unfoldable pub register : ModelRegistry P → RegisteredModel P → (default : Bool) → ModelRegistry P
  register r m default = record {
    models = Dict.put r.models m.name m;
    default_name = new_default r.default_name default m.name;
  }

  unfoldable pub unregister : ModelRegistry P → String → ModelRegistry P
  unregister r name =
      let rest = Dict.remove r.models name in
      record {
        models = rest;
        default_name = if is_default r.default_name name then first_name rest else r.default_name;
      }

  abbrev pub found : Option (RegisteredModel P) → Result (RegisteredModel P)
  found none = err configuration_error
  found (some m) = ok m

  abbrev pub get_key : ModelRegistry P → Option String → Result (RegisteredModel P)
  get_key r none = err configuration_error
  get_key r (some key) = found (Dict.get r.models key)

  unfoldable pub get : ModelRegistry P → Option String → Result (RegisteredModel P)
  get r name = get_key r (key_of name r.default_name)

  unfoldable pub set_default : ModelRegistry P → String → Result (ModelRegistry P)
  set_default r name =
      if Dict.has r.models name
      then ok (record r { default_name = some name })
      else err configuration_error

  -- `ModelCapabilities.missing`
  unfoldable pub missing : RegisteredModel P → Dict Bool → List String
  missing m [] = []
  missing m ((key, wanted) ∷ rest) =
      let others = missing m rest in
      if wanted && not (m.capability key) then key ∷ others else others

  -- `ModelCapabilities.satisfies`
  unfoldable pub satisfies : RegisteredModel P → Dict Bool → Bool
  satisfies m [] = true
  satisfies m ((key, wanted) ∷ rest) = (not wanted || m.capability key) && satisfies m rest

  abbrev pub is_candidate : Dict Bool → List String → RegisteredModel P → Bool
  is_candidate requirements tags m = satisfies m requirements && has_all m.tags tags

  -- The sort key.
  unfoldable pub rank_key : (prefer : String) → RegisteredModel P → ℕ × ℕ
  rank_key prefer m =
      if str_eq prefer "cost"
      then (cost_hint m, m.priority)
      else if str_eq prefer "latency"
      then (m.latency_hint, m.priority)
      else (m.priority, cost_hint m)

  -- `sorted(candidates, key=key)[0]`: the first of those with the least key.
  unfoldable pub least :
      (key : RegisteredModel P → ℕ × ℕ)
      → RegisteredModel P
      → List (RegisteredModel P)
      → RegisteredModel P
  least key best [] = best
  least key best (m ∷ ms) = least key (if key_ltb (key m) (key best) then m else best) ms

  unfoldable pub select_among :
      (prefer : String) → List (RegisteredModel P) → Result (RegisteredModel P)
  unfolding least rank_key
  select_among prefer [] = err configuration_error
  select_among prefer (m ∷ ms) = ok (least (rank_key prefer) m ms)

  unfoldable pub select :
      ModelRegistry P
      → Dict Bool
      → (prefer : String) → (tags : List String) → Result (RegisteredModel P)
  unfolding select_among satisfies
  select r requirements prefer tags =
      select_among prefer (filter (is_candidate requirements tags) (Dict.values r.models))

  abbrev pub checked : Result (RegisteredModel P) → Dict Bool → Result (RegisteredModel P)
  unfolding missing
  checked (err e) requirements = err e
  checked (ok m) requirements = elim (missing m requirements) [
    | [] ↦ ok m
    | k ∷ ks ↦ err configuration_error
  ]

  abbrev pub by_requirements :
      ModelRegistry P → Dict Bool → (prefer : String) → Result (RegisteredModel P)
  unfolding select get
  by_requirements r [] prefer = get r none
  by_requirements r (q ∷ qs) prefer = select r (q ∷ qs) prefer []

  unfoldable pub resolve :
      ModelRegistry P
      → (model : Option String) → Dict Bool
      → (prefer : String) → Result (RegisteredModel P)
  unfolding get select missing
  resolve r none requirements prefer = by_requirements r requirements prefer
  resolve r (some name) requirements prefer =
      if str_eq name ""
      then by_requirements r requirements prefer
      else checked (get r (some name)) requirements
