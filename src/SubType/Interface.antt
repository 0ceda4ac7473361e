-- ===== src/SubType/Interface.antt =====
-- The interface `SubTypeFunctions` of subtype.go, and `TransformSide` of transform.go.
use jsonot.Base.{ℕ, Bool, true, false, Option, List, Result}
use jsonot.Value.{Values}
use jsonot.Operator.{SubType, Operator}
use jsonot.Path.{DocPath}

-- `TransformSide`
pub data TransformSide : Type 0 where
  left right : TransformSide

-- The implementations of `SubTypeFunctions` that a client registers; the number says which.
pub record Clients (V : Values) : Type 0 where
  pub client_invert : ℕ → SubType → DocPath → V.Value → Result (Operator V.Value)
  pub client_merge : ℕ → V.Value → Operator V.Value → Option (Operator V.Value)
  pub client_transform : ℕ → V.Value → V.Value → TransformSide → Result (List V.Value)
  pub client_apply : ℕ → Option V.Value → V.Value → Result (Option V.Value)
  pub client_validate_operand : ℕ → V.Value → Result (Unit {0})

-- Where `&NumberAdd{}` and `&Text{}` lie: the Go runtime puts all values of size 0 at one address.
abbrev pub zero_base : ℕ
zero_base = 0

abbrev pub is_right : TransformSide → Bool
is_right left = false
is_right right = true
