-- ===== src/Component.antt =====
-- operation.go, `OperationComponent`: an operator at a path; its inverse, its merge with the
-- component behind it, and its validation. `invert` returns the receiver too, since it writes
-- through the path's slice.
pub mod Inverse
use jsonot.Base.{
  Bool, true, false, not, ◌&&◌, Option, none, some, if◌then◌else◌, length, is_nil, ℤ, pos, eq_ℤ,
  sub_int, bad_path, Result, ok, panic, ◌>>=◌, fail, must_get,
}
use jsonot.Value.{Values}
use jsonot.Operator.{
  Operator, noop, noop_value, list_insert, list_delete, list_replace, list_move, object_insert,
  object_delete, object_replace, sub_type_operator, clone, validates,
}
use jsonot.Path.{DocPath, element_from_index, replace}
use jsonot.SubType.{invert_by, merge_by}
use jsonot.SubType.Interface.{Clients}

-- `OperationComponent`
pub record Component (V : Type 0) : Type 0 where
  pub operator : Operator V
  pub path : DocPath

module _ {V : Type 0} where
  -- `NewOperationComponent`: clones both parts, and cannot fail.
  unfoldable pub new_component : DocPath → Operator V → Component V
  unfolding clone
  new_component p op = record { operator = clone op; path = p }

  -- `OperationComponent.Clone`
  unfoldable pub clone_component : Component V → Component V
  unfolding clone
  clone_component c = record { operator = clone c.operator; path = c.path }

  -- `OperationComponent.Noop`
  unfoldable pub to_noop : Component V → Component V
  to_noop c = record c { operator = noop_value }

  abbrev pub is_noop_value : Operator V → Bool
  is_noop_value noop_value = true
  is_noop_value _ = false

  -- `NotNoop` and `CloneNotNoop`, which have one body: they know the struct, not the pointer.
  unfoldable pub not_noop : Component V → Option (Component V)
  not_noop c = if is_noop_value c.operator then none else some c

  abbrev pub is_sub_type : Operator V → Bool
  is_sub_type (sub_type_operator t v f) = true
  is_sub_type _ = false

  -- `OperatePathLen`
  unfoldable pub operate_path_len : Component V → ℤ
  unfolding sub_int
  operate_path_len c =
      if is_sub_type c.operator then pos (length c.path) else sub_int (pos (length c.path)) (pos 1)

  -- `supportsRootPathOperator`: the `case *Noop` does not take the struct.
  unfoldable pub supports_root_path : Operator V → Bool
  supports_root_path noop_value = false
  supports_root_path (list_move i) = false
  supports_root_path _ = true

  -- `OperationComponent.Validation`
  unfoldable pub validation : Component V → Result (Unit {0})
  unfolding supports_root_path validates
  validation c =
      if is_nil c.path && not (supports_root_path c.operator)
      then fail bad_path
      else validates c.operator

module _ (V : Values) where
  open V use {Value, equals, identical}

  merge_list_insert : Value → Operator Value → Option (Operator Value)
  merge_list_insert v (list_delete w) = if equals v w then some noop else none
  merge_list_insert v (list_replace new old) = if equals v old then some (list_insert new) else none
  merge_list_insert v _ = none

  -- The deletion is compared by `==` on the interface, all else by `Equals`.
  merge_list_replace : Value → Value → Operator Value → Option (Operator Value)
  merge_list_replace new old (list_delete w) =
      if identical new w then some (list_delete old) else none
  merge_list_replace new old (list_replace new' old') =
      if equals new old' then some (list_replace new' old) else none
  merge_list_replace new old _ = none

  merge_object_insert : Value → Operator Value → Option (Operator Value)
  merge_object_insert v (object_delete w) = if equals v w then some noop else none
  merge_object_insert v (object_replace new old) =
      if equals v old then some (object_insert new) else none
  merge_object_insert v _ = none

  merge_object_delete : Value → Operator Value → Option (Operator Value)
  merge_object_delete old (object_insert new) = some (object_replace new old)
  merge_object_delete old _ = none

  merge_object_replace : Value → Value → Operator Value → Option (Operator Value)
  merge_object_replace new old (object_delete w) =
      if equals new w then some (object_delete old) else none
  merge_object_replace new old (object_replace new' old') =
      if equals new old' then some (object_replace new' old) else none
  merge_object_replace new old _ = none

  module _ (C : Clients V) where
    -- The operator that `Merge` computes.
    unfoldable pub merge_operators :
        Operator Value → Operator Value → Result (Option (Operator Value))
    unfolding merge_list_insert merge_list_replace merge_object_insert merge_object_delete
        merge_object_replace merge_by
    merge_operators noop o = ok (some noop)
    merge_operators noop_value o = ok none
    merge_operators (list_insert v) o = ok (merge_list_insert v o)
    merge_operators (list_delete v) o = ok none
    merge_operators (list_replace new old) o = ok (merge_list_replace new old o)
    merge_operators (list_move i) o = ok none
    merge_operators (object_insert v) o = ok (merge_object_insert v o)
    merge_operators (object_delete v) o = ok (merge_object_delete v o)
    merge_operators (object_replace new old) o = ok (merge_object_replace new old o)
    merge_operators (sub_type_operator t v f) o = merge_by V C f v o

    abbrev pub at_path : DocPath → Option (Operator Value) → Option (Component Value)
    at_path p none = none
    at_path p (some o) = some (record { operator = o; path = p })

    -- `OperationComponent.Merge`
    unfoldable pub merge : Component Value → Component Value → Result (Option (Component Value))
    unfolding merge_operators
    merge c d = do o ← merge_operators c.operator d.operator; ok (at_path c.path o)

    -- The inverse of a move swaps its two places, in the slice that the receiver shares.
    invert_list_move : DocPath → ℤ → Result (Component Value × Component Value)
    invert_list_move p to = do
      (p', old) ← replace p (sub_int (pos (length p)) (pos 1)) (element_from_index to)
      elim old [
        | none ↦ fail bad_path
        | some a ↦
            if eq_ℤ a.index (pos 0)
            then fail bad_path
            else ok (
              new_component p' (list_move a.index),
              record { operator = list_move to; path = p' },
            )
      ]

    -- An inverse at the same path.
    abbrev inverse_at :
        Component Value → Operator Value → Result (Component Value × Component Value)
    inverse_at c o = ok (record { operator = o; path = c.path }, c)

    invert_operator :
        Component Value → DocPath → Operator Value → Result (Component Value × Component Value)
    unfolding invert_by invert_list_move new_component
    invert_operator c p noop = inverse_at c noop
    invert_operator c p noop_value = panic
    invert_operator c p (list_insert v) = inverse_at c (list_delete v)
    invert_operator c p (list_delete v) = inverse_at c (list_insert v)
    invert_operator c p (list_replace new old) = inverse_at c (list_replace old new)
    invert_operator c p (list_move to) = invert_list_move p to
    invert_operator c p (object_insert v) = inverse_at c (object_delete v)
    invert_operator c p (object_delete v) = inverse_at c (object_insert v)
    invert_operator c p (object_replace new old) = inverse_at c (object_replace old new)
    invert_operator c p (sub_type_operator t v f) = do
      o ← must_get (invert_by V C f t p v)
      ok (new_component p o, c)

    -- `OperationComponent.Invert`: the inverse, and the receiver after the call. Where no operator
    -- is found, the nil interface makes `Clone` panic.
    unfoldable pub invert : Component Value → Result (Component Value × Component Value)
    unfolding invert_operator
    invert c = invert_operator c c.path c.operator
