-- ===== src/Operator.antt =====
-- operator.go and action.go: the operators of a component, and the wire names of their actions.
-- A type of this package with a finite set of implementations is a data type; a pointer that the
-- code compares keeps its address.
use jsonot.Base.{
  ℕ, Bytes, lit, str_eq, ℤ, ltb_ℤ, pos, Bool, true, false, ◌&&◌, ◌||◌, ◌==◌, if◌then◌else◌, Result,
  ok, fail, invalid_parameter,
}
use jsonot.Value.{ValueType}

-- The implementations of `SubType` in subtype.go.
pub data SubTypeKind : Type 0 where
  number_add text : SubTypeKind
  custom : Bytes → SubTypeKind

-- A `SubType` is a pointer; two of them are `==` when they have one dynamic type and one address.
pub record SubType : Type 0 where
  pub kind : SubTypeKind
  pub address : ℕ

-- `TypeName`
unfoldable pub type_name : SubTypeKind → Bytes
type_name number_add = lit "na"
type_name text = lit "text"
type_name (custom name) = name

abbrev same_dynamic_type : SubTypeKind → SubTypeKind → Bool
same_dynamic_type number_add number_add = true
same_dynamic_type text text = true
same_dynamic_type (custom a) (custom b) = true
same_dynamic_type _ _ = false

-- `==` on `SubType`
unfoldable pub same_sub_type : SubType → SubType → Bool
same_sub_type a b = same_dynamic_type a.kind b.kind && a.address == b.address

-- The implementations of `SubTypeFunctions`: the two of this package, and those of a client, which
-- go by a number.
pub data SubTypeFunctions : Type 0 where
  number_add_functions text_functions : SubTypeFunctions
  client_functions : ℕ → SubTypeFunctions

-- The implementations of `Operator`. `noop_value` is the struct `Noop{}`, `noop` a pointer to one.
pub data Operator (V : Type 0) : Type 0 where
  noop noop_value : Operator V
  list_insert list_delete : V → Operator V
  list_replace : V → V → Operator V
  list_move : ℤ → Operator V
  object_insert object_delete : V → Operator V
  object_replace : V → V → Operator V
  sub_type_operator : SubType → V → SubTypeFunctions → Operator V

module _ {V : Type 0} where
  -- `Action`
  unfoldable pub action : Operator V → Bytes
  unfolding type_name
  action noop = lit ""
  action noop_value = lit ""
  action (list_insert v) = lit "li"
  action (list_delete v) = lit "ld"
  action (list_replace v w) = lit "lr"
  action (list_move i) = lit "lm"
  action (object_insert v) = lit "oi"
  action (object_delete v) = lit "od"
  action (object_replace v w) = lit "or"
  action (sub_type_operator t v f) = type_name t.kind

  -- `OperatorForValueType`
  unfoldable pub operator_for_value_type : Operator V → ValueType
  unfolding action str_eq
  operator_for_value_type op =
      let a = action op in
      if str_eq a (lit "oi") || str_eq a (lit "od") || str_eq a (lit "or")
      then ValueType.object
      else if str_eq a (lit "li")
          || str_eq a (lit "ld")
          || str_eq a (lit "lm")
          || str_eq a (lit "lr")
      then ValueType.array
      else ValueType.null

  -- `Validates`
  unfoldable pub validates : Operator V → Result (Unit {0})
  validates (list_move i) = if ltb_ℤ i (pos 0) then fail invalid_parameter else ok tt
  validates _ = ok tt

  -- `Clone`: a copy of a `Noop{}` is a pointer.
  unfoldable pub clone : Operator V → Operator V
  clone noop_value = noop
  clone op = op
