-- ===== src/SubType/Number.antt =====
-- `NumberAddSubType` of subtype.go.
use jsonot.Base.{
  ◌&&◌, ◌||◌, Option, none, some, List, [], ◌∷◌, if◌then◌else◌, pos, add_int, neg_int,
  invalid_operation, Result, ok, ◌>>=◌, ◌>>◌, fail, must,
}
use jsonot.Value.{Values}
use jsonot.Operator.{SubType, number_add, Operator, sub_type_operator, number_add_functions}
use jsonot.SubType.Interface.{TransformSide, zero_base}

-- `NewNumberAdd`
abbrev pub new_number_add : SubType
new_number_add = record { kind = number_add; address = zero_base }

module _ (V : Values) where
  open V use {Value}

  -- `NumberAddSubType.ValidateOperand`
  unfoldable pub number_validate_operand : Value → Result (Unit {0})
  number_validate_operand v = if V.is_numeric v then ok tt else fail invalid_operation

  abbrev number_operator : SubType → Value → Operator Value
  number_operator t v = sub_type_operator t v number_add_functions

  -- `NumberAddSubType.Invert`
  unfoldable pub number_invert : SubType → Value → Result (Operator Value)
  unfolding number_validate_operand
  number_invert t v = do
    number_validate_operand v
    if V.is_int v
        then (do n ← must (V.get_int v); ok (number_operator t (V.from_primitive_int (neg_int n))))
        else (do
          x ← must (V.get_numeric v)
          ok (number_operator t (V.from_primitive_float (V.float_neg x))))

  -- The sum that `Merge` and `Apply` share: of integers if both are.
  unfoldable pub number_sum : Value → Value → Result Value
  number_sum a b =
      if V.is_int a && V.is_int b
      then (do
        m ← must (V.get_int a)
        n ← must (V.get_int b)
        ok (V.from_primitive_int (add_int m n)))
      else (do
        x ← must (V.get_numeric a)
        y ← must (V.get_numeric b)
        ok (V.from_primitive_float (V.float_add x y)))

  -- `NumberAddSubType.Merge`
  unfoldable pub number_merge : Value → Operator Value → Result (Option (Operator Value))
  unfolding number_sum
  number_merge base (sub_type_operator t v f) =
      if (V.is_int base && V.is_int v) || (V.is_numeric base && V.is_numeric v)
      then (do s ← number_sum base v; ok (some (number_operator new_number_add s)))
      else ok none
  number_merge base _ = ok none

  -- `NumberAddSubType.Transform`
  unfoldable pub number_transform : Value → Value → TransformSide → Result (List Value)
  number_transform new base side = ok (new ∷ [])

  add_to_nothing : Value → Result (Option Value)
  add_to_nothing operand = elim (V.get_numeric operand) [
    | none ↦ ok (some (V.from_primitive_int (pos 0)))
    | some x ↦ ok (some (V.from_primitive_float x))
  ]

  -- `NumberAddSubType.Apply`
  unfoldable pub number_apply : Option Value → Value → Result (Option Value)
  unfolding number_validate_operand add_to_nothing number_sum
  number_apply none operand = do number_validate_operand operand; add_to_nothing operand
  number_apply (some v) operand = do
    number_validate_operand operand
    if V.is_null v then add_to_nothing operand else (do s ← number_sum v operand; ok (some s))
