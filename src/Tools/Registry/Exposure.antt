-- ===== src/Tools/Registry/Exposure.antt =====
-- What an agent is shown of the tools in coflowai/tools/registry.py.
use coflowai.Base.{
  ◌≡◌, String, Option, true, List, [], ◌∷◌, filter, arith, All, Among, first, later, if◌then◌else◌,
  Bool-cases, inl, inr,
}
use coflowai.Base.Dict
use coflowai.Base.Dict.{Dict}
use coflowai.Policies.Permissions.{Text, allows}
use coflowai.Tools.Registry.{Tool, listed, visible, visible_to}

-- An agent may see the tool: its permissions allow it, and it is on the list, if there is one.
pub record Exposed {F : Type 0} (permissions : List Text) (allowed : Option (List String))
    (t : Tool F) : Type 0 where
  pub authorised : allows permissions t.permission ≡ true
  pub on_list : listed allowed t.name ≡ true

module _ {F : Type 0} (permissions : List Text) (allowed : Option (List String)) where
  visible-Exposed :
      (t : Tool F) → visible permissions allowed t ≡ true → Exposed permissions allowed t
  visible-Exposed t h = record { authorised = ground arith; on_list = ground arith }

  filter-Exposed :
      (l : List (Tool F))
      → All (Exposed permissions allowed) (filter (visible permissions allowed) l)
  filter-Exposed [] = tt
  filter-Exposed (t ∷ ts) = elim (Bool-cases (visible permissions allowed t)) [
    | inl h ↦ rw (h, if◌then◌else◌) (visible-Exposed t h, filter-Exposed ts)
    | inr h ↦ rw (h, if◌then◌else◌) (filter-Exposed ts)
  ]

module _ {F : Type 0} (permissions : List Text) (allowed : Option (List String)) (t : Tool F)
    (authorised : allows permissions t.permission ≡ true)
    (on_list : listed allowed t.name ≡ true) where
  visible-true : visible permissions allowed t ≡ true
  visible-true = ground arith

  Among-filter : {l : List (Tool F)} → Among t l → Among t (filter (visible permissions allowed) l)
  Among-filter (first {xs}) = rw (visible-true, if◌then◌else◌) first
  Among-filter (later {y} {xs} a) = elim (Bool-cases (visible permissions allowed y)) [
    | inl h ↦ rw (h, if◌then◌else◌) (later (Among-filter a))
    | inr h ↦ rw (h, if◌then◌else◌) (Among-filter a)
  ]

-- An agent is shown only tools that its permissions allow and its list names, and every registered
-- tool of which both hold is shown.
pub visible_to_lem :
    {F : Type 0} (tools : Dict (Tool F)) (permissions : List Text) (allowed : Option (List String))
    → All (Exposed permissions allowed) (visible_to tools permissions allowed)
      × ((t : Tool F)
          → Among t (Dict.values tools)
          → allows permissions t.permission ≡ true
          → listed allowed t.name ≡ true
          → Among t (visible_to tools permissions allowed))
unfolding visible_to
visible_to_lem tools permissions allowed = (
  filter-Exposed permissions allowed (Dict.values tools),
  λ t a h l. Among-filter permissions allowed t h l a,
)
