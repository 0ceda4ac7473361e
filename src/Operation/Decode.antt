-- ===== src/Operation/Decode.antt =====
-- operation.go and jsonot.go: reading components from values. `NewCustom` allocates: `fresh` is the
-- address that it returns.
use mathlib.Core.Option
use jsonot.Base.{
  plain, ℕ, suc, zero, not, Option, none, some, List, [], ◌∷◌, ◌++◌, ltb, if◌then◌else◌, is_absent,
  Bytes, lit, str_eq, Result, ok, err, panic, ◌>>=◌, ◌>>◌, fail, must, invalid_parameter,
  invalid_operation,
}
use jsonot.Value.{Values}
use jsonot.Operator.{
  SubType, custom, Operator, noop, list_insert, list_delete, list_replace, list_move, object_insert,
  object_delete, object_replace, sub_type_operator,
}
use jsonot.Path.{path_from_value}
use jsonot.SubType.Holder.{Holder, get}
use jsonot.SubType.Number.{new_number_add}
use jsonot.SubType.Text.{new_text}
use jsonot.Component.{Component, new_component}

-- `NewCustom`
abbrev pub new_custom : ℕ → Bytes → SubType
new_custom fresh name = record { kind = custom name; address = fresh }

module _ (V : Values) where
  open V use {Value}

  -- `SubTypeTryFromValue`
  unfoldable pub sub_type_try_from_value : ℕ → Value → Result SubType
  sub_type_try_from_value fresh v =
      if V.is_string v
      then (do
        s ← must (V.get_string v)
        ok (
            if str_eq s (lit "na")
            then new_number_add
            else if str_eq s (lit "text")
            then new_text
            else new_custom fresh s))
      else fail invalid_operation

  -- `ValidateOperationObjectSize`
  unfoldable pub validate_size : Value → ℕ → Result (Unit {0})
  validate_size obj n = if ltb (V.size obj) n then fail invalid_parameter else ok tt

  -- `obj.GetKey(k).MustGet()`
  abbrev must_key : Value → Bytes → Result Value
  must_key obj k = must (V.get_key obj k)

  -- `MapToOperatorForListMove`
  unfoldable pub to_list_move : Value → Result (Operator Value)
  unfolding validate_size
  to_list_move obj = do
    validate_size obj 2
    elim (V.get_int_key obj (lit "lm")) [
      | none ↦ fail invalid_operation
      | some i ↦ ok (list_move i)
    ]

  -- `MapToOperatorForListInsert`
  unfoldable pub to_list_insert : Value → Result (Operator Value)
  unfolding validate_size
  to_list_insert obj = elim (V.get_key obj (lit "li")) [
    | none ↦ fail invalid_operation
    | some li ↦
        if V.has_key obj (lit "ld")
        then (do validate_size obj 3; ld ← must_key obj (lit "ld"); ok (list_replace li ld))
        else (do validate_size obj 2; ok (list_insert li))
  ]

  -- `MapToOperatorForListDelete`
  unfoldable pub to_list_delete : Value → Result (Operator Value)
  unfolding validate_size
  to_list_delete obj = do
    validate_size obj 2
    elim (V.get_key obj (lit "ld")) [
      | none ↦ fail invalid_operation
      | some ld ↦ ok (list_delete ld)
    ]

  -- `MapToOperatorForListReplace`
  unfoldable pub to_list_replace : Value → Result (Operator Value)
  unfolding validate_size
  to_list_replace obj = do
    validate_size obj 3
    elim (V.get_key obj (lit "li")) [
      | none ↦ fail invalid_operation
      | some li ↦ elim (V.get_key obj (lit "ld")) [
        | none ↦ fail invalid_operation
        | some ld ↦ ok (list_replace li ld)
      ]
    ]

  -- `MapToOperatorForObjectInsert`
  unfoldable pub to_object_insert : Value → Result (Operator Value)
  unfolding validate_size
  to_object_insert obj =
      if V.has_key obj (lit "od")
      then (do
        validate_size obj 3
        oi ← must_key obj (lit "oi")
        od ← must_key obj (lit "od")
        ok (object_replace oi od))
      else (do validate_size obj 2; oi ← must_key obj (lit "oi"); ok (object_insert oi))

  -- `MapToOperatorForObjectDelete`
  unfoldable pub to_object_delete : Value → Result (Operator Value)
  unfolding validate_size
  to_object_delete obj =
      if not (V.has_key obj (lit "od"))
      then fail invalid_operation
      else (do validate_size obj 2; od ← must_key obj (lit "od"); ok (object_delete od))

  -- `MapToOperatorForObjectReplace`
  unfoldable pub to_object_replace : Value → Result (Operator Value)
  unfolding validate_size
  to_object_replace obj = do
    validate_size obj 3
    elim (V.get_key obj (lit "oi")) [
      | none ↦ fail invalid_operation
      | some oi ↦ elim (V.get_key obj (lit "od")) [
        | none ↦ fail invalid_operation
        | some od ↦ ok (object_replace oi od)
      ]
    ]

  module _ (h : Holder) where
    -- `MapToOperatorForNumberAdd`
    unfoldable pub to_number_add : Value → Result (Operator Value)
    unfolding validate_size get
    to_number_add obj = do
      validate_size obj 2
      na ← must_key obj (lit "na")
      if is_absent (V.get_numeric na)
          then fail invalid_operation
          else (do f ← must (get h (lit "na")); ok (sub_type_operator new_number_add na f))

    or_empty_object : Option Value → Value
    or_empty_object none = V.from_any_map []
    or_empty_object (some v) = v

    -- `MapToOperatorForSubType`
    unfoldable pub to_sub_type : ℕ → Value → Result (Operator Value)
    unfolding validate_size get or_empty_object
    to_sub_type fresh obj = do
      validate_size obj 3
      name ← must (V.get_string_key obj (lit "t"))
      elim (get h name) [
        | none ↦ fail invalid_operation
        | some f ↦ ok (
            sub_type_operator (new_custom fresh name) (or_empty_object (V.get_key obj (lit "o"))) f)
      ]

    -- `MapToOperator`
    unfoldable pub map_to_operator : ℕ → Value → Result (Operator Value)
    unfolding to_number_add to_sub_type to_list_move to_list_insert to_list_delete to_list_replace
        to_object_insert to_object_delete to_object_replace validate_size
    map_to_operator fresh obj =
        if V.has_key obj (lit "na")
        then to_number_add obj
        else if V.has_key obj (lit "t")
        then to_sub_type fresh obj
        else if V.has_key obj (lit "lm")
        then to_list_move obj
        else if V.has_key obj (lit "li")
        then (if V.has_key obj (lit "ld") then to_list_replace obj else to_list_insert obj)
        else if V.has_key obj (lit "ld")
        then to_list_delete obj
        else if V.has_key obj (lit "oi")
        then (if V.has_key obj (lit "od") then to_object_replace obj else to_object_insert obj)
        else if V.has_key obj (lit "od")
        then to_object_delete obj
        else validate_size obj 1 >> ok noop

    -- `OperatorFromValue`
    unfoldable pub operator_from_value : ℕ → Value → Result (Operator Value)
    unfolding map_to_operator
    operator_from_value fresh v =
        if V.is_object v then map_to_operator fresh v else fail invalid_operation

    -- `OperationFactory.OperationComponentFromValue`
    unfoldable pub component_from_value : ℕ → Value → Result (Component Value)
    unfolding operator_from_value path_from_value new_component
    component_from_value fresh v = elim (V.get_key v (lit "p")) [
      | none ↦ fail invalid_operation
      | some p ↦ do
        path ← path_from_value V p
        op ← operator_from_value fresh v
        ok (new_component path op)
    ]

    -- What a call of `OperationComponentsFromValue` returns: the components, and the next address;
    -- `none` where the fuel has run out.
    abbrev pub Decoded : Type 0
    Decoded = Option (Result (ℕ × List (Component Value)))

    abbrev pub followed_by : Decoded → (ℕ → Decoded) → Decoded
    followed_by none rest = none
    followed_by (some (err e)) rest = some (err e)
    followed_by (some panic) rest = some panic
    followed_by (some (ok (next, cs))) rest =
        Option.map
          (λ (r : Result (ℕ × List (Component Value))).
            r >>= λ (a : ℕ × List (Component Value)). ok (a.0, cs ++ a.1))
          (rest next)

    -- The loop over an array.
    unfoldable pub components_from_values : (ℕ → Value → Decoded) → ℕ → List Value → Decoded
    components_from_values deeper fresh [] = some (ok (fresh, []))
    components_from_values deeper fresh (v ∷ vs) =
        followed_by (deeper fresh v) (λ next. components_from_values deeper next vs)

    -- `OperationComponentsFromValue`, on values that nest arrays less than `depth` deep
    unfoldable pub components_from_value : ℕ → ℕ → Value → Decoded
    unfolding component_from_value components_from_values
    components_from_value zero fresh v = none
    components_from_value (suc depth) fresh v =
        let deeper = components_from_value depth in
        if V.is_array v
        then elim (V.get_array v) [
          | none ↦ some (err plain)
          | some vs ↦ components_from_values deeper fresh vs
        ]
        else if V.is_object v
        then some (do c ← component_from_value fresh v; ok (suc fresh, c ∷ []))
        else some (err plain)

    -- `OperationFromValueArray`
    unfoldable pub operation_from_value_array : ℕ → ℕ → List Value → Decoded
    unfolding components_from_value components_from_values
    operation_from_value_array depth fresh vs =
        components_from_values (components_from_value depth) fresh vs
