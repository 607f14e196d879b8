-- ===== src/Base/Json.antt =====
-- The values of type `Any` that the program passes through: JSON values.
use Prim.Native.Nat.{ℕ}
use Prim.Native.String.{String}
use mathlib.Core.Bool.{Bool, true, false, not}
use package.text.Mathlib.Text.{◌==◌ as str_eq}
use coflowai.Base.Tests.{◌==◌}

mutual
  pub data Value : Type 0 where
    null : Value
    truth : Bool → Value
    number : ℕ → Value
    text : String → Value
    array : Items → Value
    object : Fields → Value

  pub data Items : Type 0 where
    nil : Items
    cons : Value → Items → Items

  pub data Fields : Type 0 where
    end : Fields
    field : String → Value → Fields → Fields

-- `bool(value)`
abbrev pub is_truthy : Value → Bool
is_truthy Value.null = false
is_truthy (Value.truth b) = b
is_truthy (Value.number n) = not (n == 0)
is_truthy (Value.text s) = not (str_eq s "")
is_truthy (Value.array Items.nil) = false
is_truthy (Value.array _) = true
is_truthy (Value.object Fields.end) = false
is_truthy (Value.object _) = true
