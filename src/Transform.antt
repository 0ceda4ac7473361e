-- ===== src/Transform.antt =====
-- transform.go: rebasing a component over a concurrent one. The code moves indexes in the path of
-- the new component in place, and mostly returns that component; so each function here returns the
-- components of the result, and the new component as the call leaves it.
pub mod Moves
pub mod Lists
pub mod Objects
pub mod Matrix
pub mod Loss
pub mod Converge
use jsonot.Base.{
  ℕ, zero, suc, ◌+◌, ◌-◌, ◌*◌, ◌≤◌, ◌<◌, min, max, String, ◌≡◌, refl, sym, ap, ◌∙◌, ◌≢◌, ◌↔◌, ◌⊎◌,
  inl, inr, Bool, true, false, not, ◌&&◌, ◌||◌, Option, none, some, List, [], ◌∷◌, ◌++◌, map, arith,
  ltb, leb, ◌==◌, if◌then◌else◌, ltb→lt, lt→ltb, leb→le, ==_iff, Bool-cases, Option-cases,
  is_present, is_absent, length, get_elem?, set, take, drop, is_nil, insert_at, delete_at,
  length-append, take-append-drop, length-take, length-drop, length-set, get_elem?-set_self,
  length-insert_at, length-delete_at, lt-length_of_get_elem?, ℤ, pos, negsuc, pos_part, neg_part,
  neg, ◌+ℤ◌, ◌-ℤ◌, ltb_ℤ, leb_ℤ, eq_ℤ, int_bound, wrap, add_int, sub_int, neg_int, InRange, eq_ℤ→eq,
  eq_ℤ_refl, wrap_of_InRange, add_int-pos, sub_int-pos, neg_int-neg_int, Bytes, lit, str_eq,
  str_eq→eq, str_eq_refl, str_eq_iff, ErrCode, no_error, invalid_parameter, invalid_operation,
  bad_path, Error, coded, plain, Result, ok, err, panic, ◌>>=◌, ◌>>◌, fail, must, must_get, foreign,
  is_ok, >>=-eq-ok,
}
use jsonot.Value.{Values}
use jsonot.Operator.{
  Operator, noop, list_insert, list_delete, list_replace, list_move, object_insert, object_delete,
  object_replace, sub_type_operator, SubType, SubTypeFunctions, same_sub_type,
}
use jsonot.Path.{DocPath, last, split_at, max_common_path, is_prefix_of}
use jsonot.SubType.{transform_by}
use jsonot.SubType.Interface.{Clients, TransformSide}
use jsonot.Component.{Component, new_component, operate_path_len}
use jsonot.Apply.{apply_to_value}
use Moves.{Outcome, keep, with_operator, transform_list_move}
use Lists.{transform_list_replace, transform_list_insert, transform_list_delete}
use Objects.{transform_object_replace, transform_object_insert, transform_object_delete}

module _ (V : Values) where
  open V use {Value}

  noop_operator : DocPath → Operator Value → Bool
  unfolding last
  noop_operator p noop = true
  noop_operator p (list_replace new old) = V.equals new old
  noop_operator p (object_replace new old) = V.equals new old
  noop_operator p (list_move to) = elim (last p) [ none ↦ false | some a ↦ eq_ℤ a.index to ]
  noop_operator p _ = false

  -- `IsEquivalentToNoop`
  unfoldable pub is_equivalent_to_noop : Component Value → Bool
  unfolding noop_operator
  is_equivalent_to_noop c = noop_operator c.path c.operator

  module _ (C : Clients V) where
    -- A failed application leaves the old value alone.
    consume_value : Value → DocPath → Operator Value → ℕ → Result Value
    unfolding apply_to_value split_at
    consume_value old p op n = do
      (front, back) ← split_at p n
      elim (apply_to_value V C old back op) [ ok v ↦ ok v | err e ↦ ok old | panic ↦ panic ]

    consumed : Operator Value → ℕ → Component Value → Result (Operator Value)
    unfolding consume_value
    consumed (list_delete old) n other = do
      v ← consume_value old other.path other.operator n
      ok (list_delete v)
    consumed (list_replace new old) n other = do
      v ← consume_value old other.path other.operator n
      ok (list_replace new v)
    consumed (object_delete old) n other = do
      v ← consume_value old other.path other.operator n
      ok (object_delete v)
    consumed (object_replace new old) n other = do
      v ← consume_value old other.path other.operator n
      ok (object_replace new v)
    consumed op n other = ok op

    -- `Consume`: the value that an operator removes takes up the concurrent change.
    unfoldable pub consume : Component Value → ℕ → Component Value → Result (Component Value)
    unfolding consumed
    consume c n other = do op ← consumed c.operator n other; ok (with_operator c op)

    sub_type_components : DocPath → SubType → SubTypeFunctions → List Value → List (Component Value)
    unfolding new_component
    sub_type_components p t f [] = []
    sub_type_components p t f (v ∷ vs) =
        new_component p (sub_type_operator t v f) ∷ sub_type_components p t f vs

    over_sub_type :
        Component Value
        → Component Value
        → TransformSide
        → SubType
        → Value
        → SubTypeFunctions
        → Operator Value
        → Result (Outcome Value)
    unfolding transform_by sub_type_components same_sub_type
    over_sub_type new base side t v f (sub_type_operator t' v' f') =
        if not (same_sub_type t t') then ok (keep new) else elim (transform_by V C f v' v side) [
          | ok vs ↦
              ok (record { components = ok (sub_type_components base.path t f vs); new_op = new })
          | err e ↦ ok (record { components = err e; new_op = new })
          | panic ↦ panic
        ]
    over_sub_type new base side t v f _ = ok (keep new)

    over_operator :
        Component Value → Component Value → TransformSide → Operator Value → Result (Outcome Value)
    unfolding over_sub_type transform_list_replace transform_list_insert transform_list_delete
        transform_list_move transform_object_replace transform_object_insert transform_object_delete
    over_operator new base side (sub_type_operator t v f) =
        over_sub_type new base side t v f new.operator
    over_operator new base side (list_replace w old) = ok (transform_list_replace new base side w)
    over_operator new base side (list_insert w) = transform_list_insert new base side
    over_operator new base side (list_delete old) = transform_list_delete new base
    over_operator new base side (list_move to) = transform_list_move new base side to
    over_operator new base side (object_replace w old) =
        ok (transform_object_replace new base side w)
    over_operator new base side (object_insert w) = ok (transform_object_insert new base side w)
    over_operator new base side (object_delete old) = ok (transform_object_delete new base side)
    over_operator new base side _ = ok (keep new)

    -- `TransformComponentOperator`
    unfoldable pub transform_component_operator :
        Component Value → Component Value → TransformSide → Result (Outcome Value)
    unfolding over_operator
    transform_component_operator new base side = over_operator new base side base.operator

    abbrev common_len : Component Value → Component Value → ℕ
    common_len new base = length (max_common_path base.path new.path)

    -- `TransformComponent`
    unfoldable pub transform_component :
        Component Value → Component Value → TransformSide → Result (Outcome Value)
    unfolding transform_component_operator consume is_equivalent_to_noop operate_path_len
        max_common_path is_prefix_of
    transform_component new base side =
        if is_equivalent_to_noop new || is_equivalent_to_noop base
        then ok (keep new)
        else if ltb_ℤ (pos (common_len new base)) (operate_path_len new)
            && ltb_ℤ (pos (common_len new base)) (operate_path_len base)
        then ok (keep new)
        else if ltb_ℤ (operate_path_len new) (operate_path_len base)
        then if is_prefix_of new.path base.path
          then (do c ← consume new (common_len new base) base; ok (keep c))
          else ok (keep new)
        else transform_component_operator new base side
