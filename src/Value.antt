-- ===== src/Value.antt =====
-- value.go: the interfaces `Value` and `ValueFactory` that all algorithms of the package work with.
-- Both implementations wrap a JSON library's node, so the interface is a parameter here; a method
-- that mutates its receiver returns the new value, `none` for an error of the library.
pub mod Laws
pub mod Codec
pub mod Tree
use jsonot.Base.{ℕ, Bytes, ℤ, Bool, ◌||◌, Option, List}

-- `ValueType`.
pub data ValueType : Type 0 where
  null numeric string bool array object any : ValueType

-- What the code puts into a Go `any` before it hands it to `ValueFromAny`.
pub data Any (V F : Type 0) : Type 0 where
  of_nil : Any V F
  of_bool : Bool → Any V F
  of_int : ℤ → Any V F
  of_float : F → Any V F
  of_str : Bytes → Any V F
  of_raw : V → Any V F

pub record Values : Type 1 where
  pub Value : Type 0
  pub Float : Type 0
  pub type_of : Value → ValueType
  pub is_bool : Value → Bool
  pub is_null : Value → Bool
  pub is_numeric : Value → Bool
  pub is_int : Value → Bool
  pub is_string : Value → Bool
  pub is_array : Value → Bool
  pub is_object : Value → Bool
  pub pack_any : Value → Value
  pub get_key : Value → Bytes → Option Value
  pub get_string_key : Value → Bytes → Option Bytes
  pub get_int_key : Value → Bytes → Option ℤ
  pub get_array : Value → Option (List Value)
  pub get_map : Value → Option (List (Bytes × Value))
  pub get_numeric : Value → Option Float
  pub get_int : Value → Option ℤ
  pub get_string : Value → Option Bytes
  pub update_array : Value → List Value → Option Value
  pub update_object : Value → Value → Option Value
  pub set_key : Value → Bytes → Value → Option Value
  pub delete_key : Value → Bytes → Option Value
  pub has_key : Value → Bytes → Bool
  pub size : Value → ℕ
  pub equals : Value → Value → Bool
  -- Go's `==` between two values of the interface: the same pointer.
  pub identical : Value → Value → Bool
  -- `ValueFromPrimitive`
  pub from_primitive_int : ℤ → Value
  pub from_primitive_float : Float → Value
  pub from_primitive_str : Bytes → Value
  -- `ValueFromAny` of a scalar, of a `[]any` and of a `map[string]any`; `ValueFromArray`
  pub from_any : Any Value Float → Value
  pub from_any_list : List (Any Value Float) → Value
  pub from_any_map : List (Bytes × Any Value Float) → Value
  pub from_array : List Value → Value
  -- arithmetic on `float64`
  pub float_zero : Float
  pub float_add : Float → Float → Float
  pub float_sub : Float → Float → Float
  pub float_neg : Float → Float
  pub float_eq : Float → Float → Bool

module _ (V : Values) where
  open V use {Value, is_null, is_bool, is_numeric, is_string}

  -- `IsSimpleValue`
  unfoldable pub is_simple_value : Value → Bool
  is_simple_value v = is_null v || is_bool v || is_numeric v || is_string v

  -- `NewValue`
  unfoldable pub new_value : ValueType → Value
  new_value ValueType.array = V.from_any_list List.[]
  new_value ValueType.object = V.from_any_map List.[]
  new_value ValueType.string = V.from_any (of_str List.[])
  new_value ValueType.numeric = V.from_any (of_float V.float_zero)
  new_value ValueType.bool = V.from_any (of_bool Bool.false)
  new_value _ = V.from_any of_nil
