-- ===== src/Operation.antt =====
-- operation.go, `Operation`: a list of components, and its composition. The linked list is never
-- nil here; the one place that makes a nil one, `EmptyOperation`, is in `Transform.Matrix`.
pub mod Compose
pub mod Builders
pub mod Decode
pub mod Fuel
pub mod Fresh
pub mod RoundTrip
use jsonot.Base.{
  Option, Bool, false, none, some, List, [], ◌∷◌, map, if◌then◌else◌, length, is_nil, pos, eq_ℤ,
  sub_int, Bytes, lit, Result, ok, ◌>>=◌, ◌>>◌,
}
use jsonot.Value.{Values, Any, of_str, of_int, of_raw}
use jsonot.Operator.{
  SubTypeKind, number_add, text, custom, type_name, Operator, noop, noop_value, list_insert,
  list_delete, list_replace, list_move, object_insert, object_delete, object_replace,
  sub_type_operator,
}
use jsonot.Path.{DocPath, get, equal}
use jsonot.SubType.Interface.{Clients}
use jsonot.Component.{Component, is_noop_value, merge, validation}

abbrev pub Operation : Type 0 → Type 0
Operation V = List (Component V)

-- `Operation.IsEmpty`
abbrev pub is_empty : {V : Type 0} → Operation V → Bool
is_empty o = is_nil o

-- The loop of `Operation.Validation`: the first error.
unfoldable pub operation_validation : {V : Type 0} → Operation V → Result (Unit {0})
operation_validation [] = ok tt
operation_validation (c ∷ o) = do validation c; operation_validation o

move_stays : {V : Type 0} → DocPath → Operator V → Result Bool
move_stays p (list_move to) = do
  last ← get p (sub_int (pos (length p)) (pos 1))
  ok (elim last [ none ↦ false | some a ↦ eq_ℤ a.index to ])
move_stays p _ = ok false

module _ (V : Values) (C : Clients V) where
  open V use {Value, Float}

  -- What stands for the last component and `op` behind it.
  joined : Component Value → Component Value → Option (Component Value) → List (Component Value)
  joined last op (some c) = c ∷ []
  joined last op none = if is_noop_value last.operator then [] else last ∷ op ∷ []

  join_last : Component Value → Component Value → Result (List (Component Value))
  unfolding joined
  join_last last op =
      if equal last.path op.path
      then (merge V C last op >>= λ m. ok (joined last op m))
      else ok (last ∷ op ∷ [])

  push : Operation Value → Component Value → Result (Operation Value)
  unfolding join_last
  push [] op = ok (op ∷ [])
  push (c ∷ []) op = join_last c op
  push (c ∷ (d ∷ o)) op = do r ← push (d ∷ o) op; ok (c ∷ r)

  -- `Operation.Append`
  unfoldable pub append : Operation Value → Component Value → Result (Operation Value)
  unfolding move_stays push
  append o op = do stays ← move_stays op.path op.operator; if stays then ok o else push o op

  -- `Operation.Compose`
  unfoldable pub compose : Operation Value → Operation Value → Result (Operation Value)
  compose o [] = ok o
  compose o (c ∷ other) = do o' ← append o c; compose o' other

  unfoldable pub raw_path : DocPath → List (Any Value Float)
  raw_path [] = []
  raw_path (a ∷ p) = (if is_nil a.key then of_int a.index else of_str a.key) ∷ raw_path p

  sub_type_fields : SubTypeKind → Value → List (Bytes × Any Value Float)
  unfolding type_name
  sub_type_fields number_add v = (lit "na", of_raw v) ∷ []
  sub_type_fields text v = (lit "t", of_str (type_name text)) ∷ (lit "o", of_raw v) ∷ []
  sub_type_fields (custom n) v = (lit "t", of_str (type_name (custom n))) ∷ (lit "o", of_raw v) ∷ []

  unfoldable pub operator_fields : Operator Value → List (Bytes × Any Value Float)
  unfolding sub_type_fields
  operator_fields noop = []
  operator_fields noop_value = []
  operator_fields (list_insert v) = (lit "li", of_raw v) ∷ []
  operator_fields (list_delete v) = (lit "ld", of_raw v) ∷ []
  operator_fields (list_replace new old) = (lit "li", of_raw new) ∷ (lit "ld", of_raw old) ∷ []
  operator_fields (list_move to) = (lit "lm", of_int to) ∷ []
  operator_fields (object_insert v) = (lit "oi", of_raw v) ∷ []
  operator_fields (object_delete v) = (lit "od", of_raw v) ∷ []
  operator_fields (object_replace new old) = (lit "oi", of_raw new) ∷ (lit "od", of_raw old) ∷ []
  operator_fields (sub_type_operator t v f) = sub_type_fields t.kind v

  -- `OperationComponent.ToValue`
  unfoldable pub component_to_value : Component Value → Value
  unfolding operator_fields raw_path
  component_to_value c =
      V.from_any_map
        ((lit "p", of_raw (V.from_any_list (raw_path c.path))) ∷ operator_fields c.operator)

  -- `Operation.ToValue`
  unfoldable pub operation_to_value : Operation Value → Value
  unfolding component_to_value
  operation_to_value o = V.from_array (map component_to_value o)
