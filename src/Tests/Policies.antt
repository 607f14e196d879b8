-- ===== src/Tests/Policies.antt =====
-- The theorems about coflowai/policies/ at concrete inputs.
use coflowai.Base.{◌≡◌, ◌↔◌, Option, none, some, true, List, [], ◌∷◌}
use coflowai.Core.Types.{strict}
use coflowai.Policies.Permissions.{Text, allows}
use coflowai.Policies.Permissions.Grants.{Permitted, allows_iff}
use coflowai.Policies.Policy.{ExecutionPolicy, member, raw, PolicyDict, Spent}
use coflowai.Tests.Data.{policy, granted}

-- "a.b.c", which "a.*" has below it, and "a.*" with "a.d".
abbrev nested : Option Text
nested = some (b'a' ∷ b'.' ∷ b'b' ∷ b'.' ∷ b'c' ∷ [])

abbrev others : List Text
others = (b'a' ∷ b'.' ∷ b'*' ∷ []) ∷ (b'a' ∷ b'.' ∷ b'd' ∷ []) ∷ []

allows_iff_example : (allows granted nested ≡ true) ↔ Permitted granted nested
allows_iff_example = allows_iff granted nested

abbrev strict_policy : ExecutionPolicy
strict_policy = record policy { mode = member strict }

abbrev written : PolicyDict
written = record {
  max_steps = 20;
  timeout_seconds = some 300;
  max_model_calls = 2;
  max_tool_calls = 4;
  max_tokens = some 1000;
  max_cost = none;
  retry_attempts = 2;
  checkpoint_enabled = true;
  max_concurrency = 8;
  mode = "strict";
}

abbrev reloaded : ExecutionPolicy
reloaded = record policy { mode = raw "strict" }

abbrev used : Spent
used = record { cost = 0; tokens = 900; model_calls = 1; tool_calls = 0 }
