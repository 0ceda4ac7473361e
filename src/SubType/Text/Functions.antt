-- ===== src/SubType/Text/Functions.antt =====
-- `TextSubType` of subtype.go: merging, transforming and applying text operands. Each method first
-- reads its operands from values; the rest is a function on operands.
use jsonot.Base.{
  Bool, true, false, not, ◌&&◌, Option, none, some, List, [], ◌∷◌, ◌++◌, map, if◌then◌else◌,
  is_present, is_absent, ℤ, pos, ltb_ℤ, leb_ℤ, add_int, sub_int, Bytes, lit, str_eq,
  invalid_parameter, invalid_operation, Result, ok, err, panic, ◌>>=◌, ◌>>◌, fail,
}
use jsonot.Value.{Values}
use mathlib.Core.Option
use jsonot.Operator.{Operator, sub_type_operator}
use jsonot.SubType.Interface.{TransformSide, is_right}
use jsonot.SubType.Text.{
  TextOperand, sub_string, len, new_insert_text_operand, new_delete_text_operand,
  transform_position, must_get_insert_val, must_get_delete_val, new_text, text_to_value,
  text_from_value, text_operator,
}

-- `left + middle + right` around the place `at` of `s`.
unfoldable pub splice : Bytes → ℤ → Bytes → Result Bytes
splice s at middle = do
  l ← sub_string s (pos 0) at
  r ← sub_string s at (len s)
  ok (l ++ (middle ++ r))

abbrev both_insert : TextOperand → TextOperand → Bool
both_insert b o = is_present b.insert_val && is_present o.insert_val

abbrev both_delete : TextOperand → TextOperand → Bool
both_delete b o = is_present b.delete_val && is_present o.delete_val

-- The body of `Merge`, behind the decoding.
unfoldable pub merge_operands : TextOperand → TextOperand → Result (Option TextOperand)
unfolding splice
merge_operands b o =
    if both_insert b o
      && leb_ℤ b.offset o.offset
      && leb_ℤ o.offset (add_int b.offset (len (must_get_insert_val b)))
    then (do
      s ← splice (must_get_insert_val b) (sub_int o.offset b.offset) (must_get_insert_val o)
      ok (some (new_insert_text_operand b.offset s)))
    else if both_delete b o
        && leb_ℤ o.offset b.offset
        && leb_ℤ b.offset (add_int o.offset (len (must_get_delete_val o)))
    then (do
      s ← splice (must_get_delete_val o) (sub_int b.offset o.offset) (must_get_delete_val b)
      ok (some (new_delete_text_operand o.offset s)))
    else ok none

abbrev delete_unless_empty : ℤ → Bytes → List TextOperand
delete_unless_empty p [] = []
delete_unless_empty p (c ∷ s) = new_delete_text_operand p (c ∷ s) ∷ []

-- `Transform` of a deletion against an insertion.
delete_against_insert : ℤ → Bytes → ℤ → Bytes → Result (List TextOperand)
delete_against_insert p d q inserted = do
  before ←
      if ltb_ℤ p q
      then (do t ← sub_string d (pos 0) (sub_int q p); ok (new_delete_text_operand p t ∷ []))
      else ok []
  rest ← sub_string d (sub_int q p) (len d)
  ok (before ++ delete_unless_empty (add_int p (len inserted)) rest)

-- `Transform` of a deletion against a deletion: `base_delete` is read from the new operand.
delete_against_delete : TextOperand → ℤ → Bytes → ℤ → Bytes → Result (List TextOperand)
delete_against_delete new p d q base_delete =
    if leb_ℤ (add_int q (len base_delete)) p
    then ok (new_delete_text_operand (sub_int p (len base_delete)) d ∷ [])
    else if leb_ℤ (add_int p (len d)) q
    then ok (new_delete_text_operand p d ∷ [])
    else do
      l ← if ltb_ℤ p q then sub_string d (pos 0) (sub_int q p) else ok []
      r ←
          if ltb_ℤ (add_int q (len base_delete)) (add_int p (len d))
          then sub_string d (sub_int (add_int q (len base_delete)) p) (len d)
          else ok []
      ok (delete_unless_empty (transform_position new p false) (l ++ r))

transform_delete : TextOperand → ℤ → Option Bytes → Result (List TextOperand)
unfolding delete_against_insert delete_against_delete
transform_delete new q (some inserted) =
    delete_against_insert new.offset (must_get_delete_val new) q inserted
transform_delete new q none =
    delete_against_delete new new.offset (must_get_delete_val new) q (must_get_delete_val new)

transform_by : TextOperand → TextOperand → TransformSide → Option Bytes → Result (List TextOperand)
unfolding transform_delete
transform_by new base side (some s) =
    ok (new_insert_text_operand (transform_position base new.offset (is_right side)) s ∷ [])
transform_by new base side none = transform_delete new base.offset base.insert_val

-- The body of `Transform`, behind the decoding.
unfoldable pub transform_operands :
    TextOperand → TextOperand → TransformSide → Result (List TextOperand)
unfolding transform_by
transform_operands new base side = transform_by new base side new.insert_val

unfoldable pub apply_delete : ℤ → Bytes → Bytes → Result Bytes
apply_delete p d s = do
  deleted ← sub_string s p (len d)
  if str_eq d deleted
      then if ltb_ℤ p (len s)
        then (do
          l ← sub_string s (pos 0) p
          r ← sub_string s (add_int p (len d)) (len s)
          ok (l ++ r))
        else ok s
      else fail invalid_operation

apply_by : ℤ → Option Bytes → Bytes → Bytes → Result Bytes
unfolding splice apply_delete
apply_by p (some i) d s = if leb_ℤ p (len s) then splice s p i else ok (s ++ i)
apply_by p none d s = apply_delete p d s

-- The body of `Apply` on a string.
unfoldable pub apply_operand : TextOperand → Bytes → Result Bytes
unfolding apply_by
apply_operand t s = apply_by t.offset t.insert_val (must_get_delete_val t) s

module _ (V : Values) where
  open V use {Value}

  -- `TextSubType.Merge`: an operand that cannot be read is no reason to fail.
  unfoldable pub text_merge : Value → Operator Value → Result (Option (Operator Value))
  unfolding merge_operands text_from_value text_to_value
  text_merge base (sub_type_operator t v f) = elim (text_from_value V base) [
    | ok b ↦ elim (text_from_value V v) [
      | ok o ↦ merge_operands b o >>= λ m. ok (Option.map (text_operator V new_text) m)
      | err e ↦ ok none
      | panic ↦ panic
    ]
    | err e ↦ ok none
    | panic ↦ panic
  ]
  text_merge base _ = ok none

  -- `TextSubType.Transform`
  unfoldable pub text_transform : Value → Value → TransformSide → Result (List Value)
  unfolding transform_operands text_from_value text_to_value
  text_transform new base side = do
    n ← text_from_value V new
    b ← text_from_value V base
    os ← transform_operands n b side
    ok (map (text_to_value V) os)

  abbrev is_string_or_absent : Option Value → Bool
  is_string_or_absent none = true
  is_string_or_absent (some v) = V.is_string v

  -- `TextSubType.ValidateOperand`
  unfoldable pub text_validate_operand : Value → Result (Unit {0})
  text_validate_operand v =
      if is_absent (V.get_int_key v (lit "p"))
      then fail invalid_operation
      else if not (is_string_or_absent (V.get_key v (lit "i")))
      then fail invalid_operation
      else if not (is_string_or_absent (V.get_key v (lit "d")))
      then fail invalid_operation
      else ok tt

  -- `Apply` where there is no text yet.
  abbrev apply_to_nothing : TextOperand → Option Value
  apply_to_nothing t = Option.map V.from_primitive_str t.insert_val

  apply_to_text : TextOperand → Option Bytes → Result (Option Value)
  unfolding apply_operand
  apply_to_text t none = fail invalid_parameter
  apply_to_text t (some s) = do r ← apply_operand t s; ok (some (V.from_primitive_str r))

  -- `TextSubType.Apply`
  unfoldable pub text_apply : Option Value → Value → Result (Option Value)
  unfolding text_validate_operand text_from_value apply_to_text
  text_apply val operand = do
    text_validate_operand operand
    t ← text_from_value V operand
    elim val [
      | none ↦ ok (apply_to_nothing t)
      | some v ↦ if V.is_null v then ok (apply_to_nothing t) else apply_to_text t (V.get_string v)
    ]
