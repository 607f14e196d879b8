-- ===== src/Tools/Registry.antt =====
-- coflowai/tools/registry.py: `ToolRegistry`. A tool is its definition; the function that it calls
-- is of type `F`. A registry is the dict of its tools by name.
pub mod Exposure
use coflowai.Base.{
  ℕ, String, Option, none, some, Bool, true, not, ◌&&◌, List, [], ◌∷◌, filter, contains,
  if◌then◌else◌,
}
use coflowai.Base.Dict
use coflowai.Base.Dict.{Dict}
use coflowai.Core.Errors.{ErrorClass, PythonClass, plain, python, Result, ok, err}
use coflowai.Policies.Permissions.{Text, allows}

pub record Tool (F : Type 0) : Type 0 where
  pub name : String
  pub permission : Option Text
  pub timeout : ℕ
  pub retries : ℕ
  pub side_effect : Bool
  pub idempotent : Bool
  pub rate_limit_per_minute : Option ℕ
  pub call : F

-- `allowed is None or tool.name in allowed`
abbrev pub listed : Option (List String) → String → Bool
listed none name = true
listed (some l) name = contains l name

module _ {F : Type 0} where
  unfoldable pub register : Dict (Tool F) → Tool F → (replace : Bool) → Result (Dict (Tool F))
  register tools t replace =
      if not replace && Dict.has tools t.name
      then err (python PythonClass.value_error)
      else ok (Dict.put tools t.name t)

  unfoldable pub register_many : Dict (Tool F) → List (Tool F) → Dict (Tool F)
  register_many tools [] = tools
  register_many tools (t ∷ ts) = register_many (Dict.put tools t.name t) ts

  unfoldable pub unregister : Dict (Tool F) → String → Dict (Tool F)
  unregister tools name = Dict.remove tools name

  abbrev pub found : Option (Tool F) → Result (Tool F)
  found none = err (plain ErrorClass.tool_not_found)
  found (some t) = ok t

  unfoldable pub get : Dict (Tool F) → String → Result (Tool F)
  get tools name = found (Dict.get tools name)

  abbrev pub visible : List Text → Option (List String) → Tool F → Bool
  visible permissions allowed t = listed allowed t.name && allows permissions t.permission

  unfoldable pub visible_to : Dict (Tool F) → List Text → Option (List String) → List (Tool F)
  visible_to tools permissions allowed = filter (visible permissions allowed) (Dict.values tools)

  -- The loop of `scoped`, on the registry that it fills.
  unfoldable pub scoped_from : Dict (Tool F) → List String → Dict (Tool F) → Result (Dict (Tool F))
  unfolding get
  scoped_from tools [] new = ok new
  scoped_from tools (n ∷ ns) new = elim (get tools n) [
    | err e ↦ err e
    | ok t ↦ scoped_from tools ns (Dict.put new t.name t)
  ]

  unfoldable pub scoped : Dict (Tool F) → List String → Result (Dict (Tool F))
  unfolding scoped_from
  scoped tools names = scoped_from tools names []
