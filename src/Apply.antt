-- ===== src/Apply.antt =====
-- apply.go: applying a component to a document. A method that mutates a value returns the new one;
-- what a failing call has already written is dropped with the error.
pub mod Route
pub mod Arrays
pub mod Undo
pub mod Permutes
pub mod First
use jsonot.Base.{
  ℕ, zero, suc, ◌+◌, ◌-◌, ◌*◌, ◌≤◌, ◌<◌, min, max, String, ◌≡◌, refl, sym, ap, ◌∙◌, ◌≢◌, ◌↔◌, ◌⊎◌,
  inl, inr, Bool, true, false, not, ◌&&◌, ◌||◌, Option, none, some, List, [], ◌∷◌, ◌++◌, map, arith,
  ltb, leb, ◌==◌, if◌then◌else◌, ltb→lt, lt→ltb, leb→le, ==_iff, Bool-cases, Option-cases,
  is_present, is_absent, length, get_elem?, set, take, drop, is_nil, insert_at, delete_at,
  length-append, take-append-drop, length-take, length-drop, length-set, get_elem?-set_self,
  length-insert_at, length-delete_at, lt-length_of_get_elem?, ℤ, pos, negsuc, pos_part, neg_part,
  neg, ◌+ℤ◌, ◌-ℤ◌, ltb_ℤ, leb_ℤ, eq_ℤ, int_bound, wrap, add_int, sub_int, neg_int, InRange, eq_ℤ→eq,
  eq_ℤ_refl, wrap_of_InRange, add_int-pos, sub_int-pos, neg_int-neg_int, Bytes, lit, str_eq,
  str_eq→eq, str_eq_refl, str_eq_iff, ErrCode, no_error, invalid_parameter, invalid_operation,
  bad_path, Error, coded, plain, Result, ok, err, panic, ◌>>=◌, ◌>>◌, fail, must, must_get, foreign,
  is_ok, >>=-eq-ok,
}
use jsonot.Value.{Values, ValueType, of_nil}
use jsonot.Operator.{
  Operator, noop, list_insert, list_delete, list_replace, object_insert, object_delete,
  object_replace, sub_type_operator, operator_for_value_type,
}
use jsonot.Path.{DocPath, first_key_path, split_at}
use jsonot.SubType.{apply_by}
use jsonot.SubType.Interface.{Clients}
use Route.{route_get, route_set}
use Arrays.{apply_to_array}

module _ (V : Values) (C : Clients V) where
  open V use {Value}

  set_if_present : Value → Bytes → Option Value → Result Value
  set_if_present obj k none = ok obj
  set_if_present obj k (some v) = foreign (V.set_key obj k v)

  apply_at_key : Value → Bytes → Operator Value → Result Value
  unfolding apply_by set_if_present
  apply_at_key obj k (object_insert new) = foreign (V.set_key obj k new)
  apply_at_key obj k (object_delete old) =
      if is_absent (V.get_key obj k) then ok obj else foreign (V.delete_key obj k)
  apply_at_key obj k (object_replace new old) = foreign (V.set_key obj k new)
  apply_at_key obj k (sub_type_operator t v f) = do
    r ← apply_by V C f (V.get_key obj k) v
    set_if_present obj k r
  apply_at_key obj k _ = err plain

  -- `ApplyToObject`
  unfoldable pub apply_to_object : Value → DocPath → Operator Value → Result Value
  unfolding apply_at_key first_key_path
  apply_to_object obj p op = elim (first_key_path p) [
    | none ↦ fail bad_path
    | some k ↦ apply_at_key obj k op
  ]

  apply_by_type : ValueType → Value → DocPath → Operator Value → Result Value
  unfolding apply_to_array apply_to_object
  apply_by_type ValueType.array v p op = do
    arr ← foreign (V.get_array v)
    arr' ← apply_to_array V arr p op
    foreign (V.update_array v arr')
  apply_by_type ValueType.object v p op = do
    node ← apply_to_object v p op
    foreign (V.update_object v node)
  apply_by_type _ v p op = fail invalid_parameter

  -- The `switch` of `ApplyToValue`, for a path of at most one element.
  unfoldable pub apply_here : Value → DocPath → Operator Value → Result Value
  unfolding apply_by_type
  apply_here v p op = apply_by_type (V.type_of v) v p op

  -- `ApplyToValue`: the value after the call. The recursive call is on a path of one element.
  unfoldable pub apply_to_value : Value → DocPath → Operator Value → Result Value
  unfolding apply_here route_get route_set split_at
  apply_to_value v p op =
      if ltb 1 (length p)
      then (do
        (front, back) ← split_at p (length p - 1)
        found ← route_get V (V.pack_any v) front (operator_for_value_type op)
        elim found [
          | none ↦ fail invalid_parameter
          | some w ↦ do w' ← apply_here w back op; route_set V (V.pack_any v) front w'
        ])
      else apply_here v p op

  abbrev or_null : Option Value → Value
  or_null none = V.from_any of_nil
  or_null (some v) = v

  -- `ApplyToRootValue`
  unfoldable pub apply_to_root_value : Value → Operator Value → Result Value
  unfolding apply_by
  apply_to_root_value v noop = ok v
  apply_to_root_value v (list_insert new) = ok new
  apply_to_root_value v (list_delete old) = ok (V.from_any of_nil)
  apply_to_root_value v (list_replace new old) = ok new
  apply_to_root_value v (object_insert new) = ok new
  apply_to_root_value v (object_delete old) = ok (V.from_any of_nil)
  apply_to_root_value v (object_replace new old) = ok new
  apply_to_root_value v (sub_type_operator t w f) = do r ← apply_by V C f (some v) w; ok (or_null r)
  apply_to_root_value v _ = err plain
