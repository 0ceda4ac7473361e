-- ===== src/SubType/Text.antt =====
-- `TextOperand` and `TextSubType` of subtype.go.
pub mod Functions
pub mod Splice
pub mod Converge
pub mod Undo
use jsonot.Base.{
  ℕ, zero, suc, ◌+◌, ◌-◌, ◌*◌, ◌≤◌, ◌<◌, min, max, String, ◌≡◌, refl, sym, ap, ◌∙◌, ◌≢◌, ◌↔◌, ◌⊎◌,
  inl, inr, Bool, true, false, not, ◌&&◌, ◌||◌, Option, none, some, List, [], ◌∷◌, ◌++◌, map, arith,
  ltb, leb, ◌==◌, if◌then◌else◌, ltb→lt, lt→ltb, leb→le, ==_iff, Bool-cases, Option-cases,
  is_present, is_absent, length, get_elem?, set, take, drop, is_nil, insert_at, delete_at,
  length-append, take-append-drop, length-take, length-drop, length-set, get_elem?-set_self,
  length-insert_at, length-delete_at, lt-length_of_get_elem?, ℤ, pos, negsuc, pos_part, neg_part,
  neg, ◌+ℤ◌, ◌-ℤ◌, ltb_ℤ, leb_ℤ, eq_ℤ, int_bound, wrap, add_int, sub_int, neg_int, InRange, eq_ℤ→eq,
  eq_ℤ_refl, wrap_of_InRange, add_int-pos, sub_int-pos, neg_int-neg_int, Bytes, lit, str_eq,
  str_eq→eq, str_eq_refl, str_eq_iff, ErrCode, no_error, invalid_parameter, invalid_operation,
  bad_path, Error, coded, plain, Result, ok, err, panic, ◌>>=◌, ◌>>◌, fail, must, must_get, foreign,
  is_ok, >>=-eq-ok,
}
use jsonot.Value.{Values, Any, of_int, of_str}
use jsonot.Operator.{SubType, text, Operator, sub_type_operator, text_functions}
use jsonot.SubType.Interface.{TransformSide, is_right, zero_base}

-- `SubString`. An `end` before `start` makes the slice expression panic.
unfoldable pub sub_string : Bytes → ℤ → ℤ → Result Bytes
sub_string s (pos i) (pos j) =
    if leb (length s) i
    then ok []
    else if ltb (min j (length s)) i
    then panic
    else ok (take (min j (length s) - i) (drop i s))
sub_string s (negsuc i) j = ok []
sub_string s (pos i) (negsuc j) = ok []

abbrev pub len : Bytes → ℤ
len s = pos (length s)

-- `TextOperand`
pub record TextOperand : Type 0 where
  pub insert_val : Option Bytes
  pub delete_val : Option Bytes
  pub offset : ℤ

-- `NewInsertTextOperand`, `NewDeleteTextOperand`
abbrev pub new_insert_text_operand : ℤ → Bytes → TextOperand
new_insert_text_operand p s = record { insert_val = some s; delete_val = none; offset = p }

abbrev pub new_delete_text_operand : ℤ → Bytes → TextOperand
new_delete_text_operand p s = record { insert_val = none; delete_val = some s; offset = p }

abbrev or_empty : Option Bytes → Bytes
or_empty none = []
or_empty (some s) = s

-- `MustGetInsertVal`, `MustGetDeleteVal`
abbrev pub must_get_insert_val : TextOperand → Bytes
must_get_insert_val t = or_empty t.insert_val

abbrev pub must_get_delete_val : TextOperand → Bytes
must_get_delete_val t = or_empty t.delete_val

invert_values : ℤ → Option Bytes → Option Bytes → Result TextOperand
invert_values p (some s) d = ok (new_delete_text_operand p s)
invert_values p none (some s) = ok (new_insert_text_operand p s)
invert_values p none none = fail invalid_operation

-- `InvertObject`
unfoldable pub invert_object : TextOperand → Result TextOperand
unfolding invert_values
invert_object t = invert_values t.offset t.insert_val t.delete_val

position_after : ℤ → Option Bytes → Bytes → ℤ → Bool → ℤ
position_after p (some s) d q insert_after =
    if ltb_ℤ p q || (eq_ℤ p q && insert_after) then add_int p (len s) else q
position_after p none d q insert_after =
    if leb_ℤ q p then q else if leb_ℤ q (add_int p (len d)) then p else sub_int q (len d)

-- `TransformPosition`
unfoldable pub transform_position : TextOperand → ℤ → Bool → ℤ
unfolding position_after
transform_position t q insert_after =
    position_after t.offset t.insert_val (must_get_delete_val t) q insert_after

-- `NewText`
abbrev pub new_text : SubType
new_text = record { kind = text; address = zero_base }

module _ (V : Values) where
  open V use {Value, Float}

  abbrev optional_field : Bytes → Option Bytes → List (Bytes × Any Value Float)
  optional_field k none = []
  optional_field k (some s) = (k, of_str s) ∷ []

  -- `TextOperand.ToValue`
  unfoldable pub text_to_value : TextOperand → Value
  text_to_value t = V.from_any_map (
      (lit "p", of_int t.offset)
      ∷ (optional_field (lit "i") t.insert_val ++ optional_field (lit "d") t.delete_val))

  abbrev string_of : Option Value → Option Bytes
  string_of none = none
  string_of (some v) = some (or_empty (V.get_string v))

  -- `TextOperand.FromValue`, on a new operand
  unfoldable pub text_from_value : Value → Result TextOperand
  text_from_value v = elim (V.get_int_key v (lit "p")) [
    | none ↦ fail invalid_operation
    | some p ↦ ok (record {
      insert_val = string_of (V.get_key v (lit "i"));
      delete_val = string_of (V.get_key v (lit "d"));
      offset = p;
    })
  ]

  abbrev text_operator : SubType → TextOperand → Operator Value
  text_operator t o = sub_type_operator t (text_to_value o) text_functions

  -- `TextSubType.Invert`
  unfoldable pub text_invert : SubType → Value → Result (Operator Value)
  unfolding text_from_value invert_object text_to_value
  text_invert t v = do o ← text_from_value v; i ← invert_object o; ok (text_operator t i)
