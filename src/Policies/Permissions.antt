-- ===== src/Policies/Permissions.antt =====
-- coflowai/policies/permissions.py. A permission is a text, here the list of its code points, and
-- the set `granted` is a list. `split` and `join` are those of Python at the separator ".".
pub mod Dots
pub mod Grants
pub mod Algebra
use coflowai.Base.{
  ℕ, zero, suc, ◌-◌, Bool, true, false, ◌&&◌, ◌||◌, not, List, [], ◌∷◌, ◌++◌, Option, none, some,
  ltb, ◌==◌, filter, length, take, if◌then◌else◌,
}

abbrev pub Text : Type 0
Text = List ℕ

abbrev pub text_eq : Text → Text → Bool
text_eq [] [] = true
text_eq (a ∷ s) (b ∷ t) = a == b && text_eq s t
text_eq _ _ = false

abbrev pub member : List Text → Text → Bool
member [] t = false
member (s ∷ l) t = text_eq s t || member l t

abbrev pub dot : ℕ
dot = b'.'

abbrev pub star : ℕ
star = b'*'

-- Puts a character before the first part.
abbrev pub extend : ℕ → List Text → List Text
extend c [] = (c ∷ []) ∷ []
extend c (p ∷ ps) = (c ∷ p) ∷ ps

-- `text.split(".")`
unfoldable pub split : Text → List Text
split [] = [] ∷ []
split (c ∷ s) = let rest = split s in if c == dot then [] ∷ rest else extend c rest

-- `".".join(parts)`
abbrev pub join : List Text → Text
join [] = []
join (p ∷ []) = p
join (p ∷ q ∷ ps) = p ++ (dot ∷ join (q ∷ ps))

-- The `prefix` of the loop in `allows`.
unfoldable pub wildcard : List Text → ℕ → Text
wildcard segments i =
    if ltb 1 i then join (take (i - 1) segments ++ ((star ∷ []) ∷ [])) else star ∷ []

-- `for i in range(len(segments), 0, -1)`
unfoldable pub scan : List Text → List Text → ℕ → Bool
scan granted segments zero = false
scan granted segments (suc i) =
    member granted (wildcard segments (suc i)) || scan granted segments i

-- `allows`, with `None` and the empty text as no permission at all.
unfoldable pub allows_text : List Text → Text → Bool
unfolding scan wildcard split
allows_text granted required =
    (member granted (star ∷ []) || member granted required)
    || scan granted (split required) (length (split required))

unfoldable pub allows : List Text → Option Text → Bool
unfolding allows_text
allows granted none = true
allows granted (some []) = true
allows granted (some (c ∷ s)) = allows_text granted (c ∷ s)

-- `r and not self.allows(r)`
abbrev is_missing : List Text → Option Text → Bool
is_missing granted r = not (allows granted r)

unfoldable pub missing : List Text → List (Option Text) → List (Option Text)
unfolding allows
missing granted required = filter (is_missing granted) required

-- `self.granted | extra`
unfoldable pub union : List Text → List Text → List Text
union granted extra = granted ++ extra

unfoldable pub intersect : List Text → List Text → List Text
intersect granted other =
    if member granted (star ∷ [])
    then other
    else if member other (star ∷ [])
    then granted
    else filter (member other) granted

abbrev pub all_permissions : List Text
all_permissions = (star ∷ []) ∷ []
