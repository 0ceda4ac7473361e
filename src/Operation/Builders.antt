-- ===== src/Operation/Builders.antt =====
-- operation.go: the builders of components. A setter returns the builder with the field set.
use jsonot.Base.{
  ◌≡◌, refl, Bool, true, false, Option, none, some, List, [], ◌∷◌, if◌then◌else◌, is_absent, ℤ,
  Bytes, lit, Result, ok, ◌>>=◌, fail, must, invalid_operation,
}
use jsonot.Value.{Values, of_int, of_str}
use jsonot.Operator.{
  clone, SubType, SubTypeFunctions, Operator, noop, list_insert, list_delete, list_replace,
  list_move, object_insert, object_delete, object_replace, sub_type_operator,
}
use jsonot.Path.{DocPath}
use jsonot.SubType.Number.{new_number_add}
use jsonot.SubType.Text.{new_text}
use jsonot.Component.{Component, new_component}

-- `ListOperationBuilder`
pub record ListBuilder (V : Type 0) : Type 0 where
  pub list_insert_val : Option V
  pub list_delete_val : Option V
  pub list_path : DocPath
  pub move_to : Option ℤ

-- `ObjectOperationBuilder`
pub record ObjectBuilder (V : Type 0) : Type 0 where
  pub object_insert_val : Option V
  pub object_delete_val : Option V
  pub replace_val : Option V
  pub object_path : DocPath

-- The setters of the list builder and of the object builder, as calls.
pub data ListSetter (V : Type 0) : Type 0 where
  set_list_insert set_list_delete : V → ListSetter V
  set_list_replace : V → V → ListSetter V
  set_move_to : ℤ → ListSetter V

pub data ObjectSetter (V : Type 0) : Type 0 where
  set_object_insert set_object_delete : V → ObjectSetter V
  set_object_replace : V → V → ObjectSetter V

module _ {V : Type 0} where
  -- `NewListOperationBuilder`
  abbrev pub new_list_builder : DocPath → ListBuilder V
  new_list_builder p = record {
    list_insert_val = none;
    list_delete_val = none;
    list_path = p;
    move_to = none;
  }

  -- `Insert`, `Delete`, `Replace(oldVal, newVal)`, `MoveTo`
  abbrev pub set_list : ListBuilder V → ListSetter V → ListBuilder V
  set_list b (set_list_insert v) = record b { list_insert_val = some v }
  set_list b (set_list_delete v) = record b { list_delete_val = some v }
  set_list b (set_list_replace old new) = record b {
    list_insert_val = some new;
    list_delete_val = some old;
  }
  set_list b (set_move_to i) = record b { move_to = some i }

  list_operator : Option ℤ → Option V → Option V → Operator V
  list_operator (some i) d n = list_move i
  list_operator none (some old) (some new) = list_replace new old
  list_operator none (some old) none = list_delete old
  list_operator none none (some new) = list_insert new
  list_operator none none none = noop

  -- `ListOperationBuilder.Build`
  unfoldable pub build_list : ListBuilder V → Component V
  unfolding list_operator new_component
  build_list b =
      new_component b.list_path (list_operator b.move_to b.list_delete_val b.list_insert_val)

  -- `NewObjectOperationBuilder`
  abbrev pub new_object_builder : DocPath → ObjectBuilder V
  new_object_builder p = record {
    object_insert_val = none;
    object_delete_val = none;
    replace_val = none;
    object_path = p;
  }

  -- `Insert`, `Delete`, `Replace(oldVal, newVal)`
  abbrev pub set_object : ObjectBuilder V → ObjectSetter V → ObjectBuilder V
  set_object b (set_object_insert v) = record b { object_insert_val = some v }
  set_object b (set_object_delete v) = record b { object_delete_val = some v }
  set_object b (set_object_replace old new) = record b {
    replace_val = some new;
    object_delete_val = some old;
  }

  object_operator : Option V → Option V → Operator V
  object_operator (some old) (some new) = object_replace new old
  object_operator (some old) none = object_delete old
  object_operator none (some new) = object_insert new
  object_operator none none = noop

  -- `ObjectOperationBuilder.Build`
  unfoldable pub build_object : ObjectBuilder V → Component V
  unfolding object_operator new_component
  build_object b =
      new_component b.object_path (object_operator b.object_delete_val b.object_insert_val)

-- `NumberAddOperationBuilder`
pub record NumberBuilder (F : Type 0) : Type 0 where
  pub number_functions : SubTypeFunctions
  pub number_path : DocPath
  pub number_int : Option ℤ
  pub number_flt : Option F

-- `TextOperationBuilder`
pub record TextBuilder : Type 0 where
  pub text_function : SubTypeFunctions
  pub text_insert : Option Bytes
  pub text_delete : Option Bytes
  pub text_path : DocPath
  pub text_offset : ℤ

-- `SubTypeOperationBuilder`; `none` is a nil interface.
pub record SubTypeBuilder (V : Type 0) : Type 0 where
  pub builder_sub_type : SubType
  pub sub_type_operand : Option V
  pub sub_type_function : Option SubTypeFunctions
  pub sub_type_path : DocPath

-- `InsertStr`, `DeleteStr`
abbrev pub insert_str : TextBuilder → ℤ → Option Bytes → TextBuilder
insert_str b at s = record b { text_offset = at; text_insert = s }

abbrev pub delete_str : TextBuilder → ℤ → Option Bytes → TextBuilder
delete_str b at s = record b { text_offset = at; text_delete = s }

module _ (V : Values) where
  open V use {Value, Float}

  -- `NumberAddOperationBuilder.Build`: the float is taken where it is absent.
  unfoldable pub build_number : NumberBuilder Float → Result (Component Value)
  unfolding new_component
  build_number b = elim b.number_int [
    | some i ↦ ok (
        new_component b.number_path
          (sub_type_operator new_number_add (V.from_primitive_int i) b.number_functions))
    | none ↦
        if is_absent b.number_flt
        then (do
          x ← must b.number_flt
          ok (
              new_component b.number_path
                (sub_type_operator new_number_add (V.from_primitive_float x) b.number_functions)))
        else fail invalid_operation
  ]

  text_fields : Option Bytes → Option Bytes → Result (Bytes × Bytes)
  text_fields (some s) none = ok (lit "i", s)
  text_fields none (some s) = ok (lit "d", s)
  text_fields _ _ = fail invalid_operation

  -- `TextOperationBuilder.Build`
  unfoldable pub build_text : TextBuilder → Result (Component Value)
  unfolding text_fields new_component
  build_text b = do
    (k, s) ← text_fields b.text_insert b.text_delete
    ok (
        new_component b.text_path (
          sub_type_operator new_text
            (V.from_any_map ((lit "p", of_int b.text_offset) ∷ (k, of_str s) ∷ []))
            b.text_function))

  -- `SubTypeOperationBuilder.Build`
  unfoldable pub build_sub_type : SubTypeBuilder Value → Result (Component Value)
  unfolding new_component
  build_sub_type b = elim b.sub_type_operand [
    | none ↦ fail invalid_operation
    | some v ↦ elim b.sub_type_function [
      | none ↦ fail invalid_operation
      | some f ↦ ok (new_component b.sub_type_path (sub_type_operator b.builder_sub_type v f))
    ]
  ]

module _ {V : Type 0} where
  abbrev pub run_object : ObjectBuilder V → List (ObjectSetter V) → ObjectBuilder V
  run_object b [] = b
  run_object b (c ∷ cs) = run_object (set_object b c) cs

  -- Some call is an `Insert`.
  abbrev pub has_insert : List (ObjectSetter V) → Bool
  has_insert [] = false
  has_insert (set_object_insert v ∷ cs) = true
  has_insert (set_object_delete v ∷ cs) = has_insert cs
  has_insert (set_object_replace old new ∷ cs) = has_insert cs

  -- The operator puts a value at the key.
  abbrev pub puts_value : Operator V → Bool
  puts_value (object_insert v) = true
  puts_value (object_replace new old) = true
  puts_value _ = false

  run_object-puts_value :
      (cs : List (ObjectSetter V)) (b : ObjectBuilder V)
      → has_insert cs ≡ false
      → b.object_insert_val ≡ none
      → puts_value (build_object (run_object b cs)).operator ≡ false
  unfolding build_object clone object_operator
  run_object-puts_value [] b h e = rw (build_object, e) (built b.object_delete_val)
    where
      built : (d : Option V) → puts_value (clone (object_operator d none)) ≡ false
      built none = refl
      built (some old) = refl
  run_object-puts_value (set_object_insert v ∷ cs) b h e = absurd (cc)
  run_object-puts_value (set_object_delete v ∷ cs) b h e = run_object-puts_value cs _ h e
  run_object-puts_value (set_object_replace old new ∷ cs) b h e = run_object-puts_value cs _ h e

  -- An object builder that is given replacements and deletions, but no insertion, never builds an
  -- operator that puts a value at the key.
  pub build_object-puts_value :
      (p : DocPath) (cs : List (ObjectSetter V))
      → has_insert cs ≡ false
      → puts_value (build_object (run_object (new_object_builder p) cs)).operator ≡ false
  build_object-puts_value p cs h = run_object-puts_value cs (new_object_builder p) h refl
