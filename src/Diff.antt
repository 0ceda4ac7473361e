-- ===== src/Diff.antt =====
-- diff.go: an operation that turns one value into another. `fuel` is above the height of the first
-- value (`Diff.Fuel`); `none` is where it has run out.
pub mod Fuel
pub mod Keys
pub mod Flat
pub mod Changes
pub mod Roundtrip
use jsonot.Base.{
  ℕ, suc, zero, ◌+◌, ◌≡◌, Bool, true, false, not, ◌&&◌, ◌||◌, Option, none, some, List, [], ◌∷◌,
  ◌++◌, arith, ltb, ◌==◌, if◌then◌else◌, is_nil, length, ℤ, pos, eq_ℤ, sub_int, Bytes, lit, str_eq,
  Result, ok, err, panic, ◌>>=◌, ◌>>◌, plain, must,
}
use jsonot.Value.{Values}
use jsonot.Value.Laws.{find_field}
use jsonot.Operator.{
  Operator, list_replace, object_insert, object_delete, object_replace, sub_type_operator,
}
use jsonot.Path.{DocPath, PathElement, element_from_key, element_from_index, last}
use jsonot.SubType.Interface.{Clients}
use jsonot.SubType.Holder.{Holder, get}
use jsonot.SubType.Number.{new_number_add}
use jsonot.Component.{new_component}
use jsonot.Operation.{Operation, append}

-- `a < b` on strings
unfoldable pub bytes_lt : Bytes → Bytes → Bool
bytes_lt a [] = false
bytes_lt [] (y ∷ ys) = true
bytes_lt (x ∷ xs) (y ∷ ys) = ltb x y || ((x == y) && bytes_lt xs ys)

-- A key in a sorted list without duplicates.
unfoldable pub add_key : Bytes → List Bytes → List Bytes
unfolding bytes_lt
add_key k [] = k ∷ []
add_key k (j ∷ js) =
    let rest = add_key k js in
    if str_eq k j then j ∷ js else if bytes_lt k j then k ∷ (j ∷ js) else j ∷ rest

-- The keys of a map, among others.
unfoldable pub add_keys : {A : Type 0} → List (Bytes × A) → List Bytes → List Bytes
unfolding add_key
add_keys [] keys = keys
add_keys ((k, v) ∷ m) keys = add_key k (add_keys m keys)

-- `appendPath`
abbrev pub append_path : DocPath → PathElement → DocPath
append_path p a = p ++ a ∷ []

abbrev pub has_key_element : Option PathElement → Bool
has_key_element none = false
has_key_element (some a) = not (is_nil a.key)

-- `supportsSubtypePath`
unfoldable pub supports_subtype_path : DocPath → Bool
unfolding last
supports_subtype_path p = is_nil p || has_key_element (last p)

module _ (V : Values) (C : Clients V) (h : Holder) where
  open V use {Value, Float}

  -- `replaceOperator`
  unfoldable pub replace_operator : DocPath → Value → Value → Operator Value
  unfolding last
  replace_operator p from to =
      if is_nil p || has_key_element (last p) then object_replace to from else list_replace to from

  -- `appendReplace`
  unfoldable pub append_replace :
      DocPath → Value → Value → Operation Value → Result (Operation Value)
  unfolding new_component append replace_operator
  append_replace p from to o = append V C o (new_component p (replace_operator p from to))

  -- `diffNumber`
  unfoldable pub diff_number : DocPath → Value → Value → Operation Value → Result (Operation Value)
  unfolding supports_subtype_path append_replace get new_component append
  diff_number p from to o =
      if not (supports_subtype_path p)
      then append_replace p from to o
      else elim (get h (lit "na")) [
        | none ↦ append_replace p from to o
        | some f ↦
            if V.is_int from && V.is_int to
            then (do
              b ← must (V.get_int to)
              a ← must (V.get_int from)
              if eq_ℤ (sub_int b a) (pos 0)
                  then ok o
                  else append V C o (
                      new_component p (
                        sub_type_operator new_number_add
                          (V.pack_any (V.from_primitive_int (sub_int b a))) f)))
            else (do
              b ← must (V.get_numeric to)
              a ← must (V.get_numeric from)
              if V.float_eq (V.float_sub b a) V.float_zero
                  then ok o
                  else append V C o (
                      new_component p (
                        sub_type_operator new_number_add
                          (V.pack_any (V.from_primitive_float (V.float_sub b a))) f)))
      ]

  abbrev pub Diffed : Type 0
  Diffed = Option (Result (Operation Value))

  -- The next call on the operation, unless this one fails.
  abbrev pub diff_then : Diffed → (Operation Value → Diffed) → Diffed
  diff_then none rest = none
  diff_then (some panic) rest = some panic
  diff_then (some (err e)) rest = some (err e)
  diff_then (some (ok o)) rest = rest o

  abbrev pub Deeper : Type 0
  Deeper = DocPath → Value → Value → Operation Value → Diffed

  -- One key of `diffObject`, with its values in the two maps.
  unfoldable pub diff_key :
      Deeper → DocPath → Option Value → Option Value → Operation Value → Diffed
  unfolding new_component append
  diff_key deeper p none none o = some (ok o)
  diff_key deeper p (some v) none o = some (append V C o (new_component p (object_delete v)))
  diff_key deeper p none (some w) o = some (append V C o (new_component p (object_insert w)))
  diff_key deeper p (some v) (some w) o = deeper p v w o

  -- The loop of `diffObject`.
  unfoldable pub diff_keys :
      Deeper
      → DocPath
      → List (Bytes × Value)
      → List (Bytes × Value)
      → List Bytes
      → Operation Value
      → Diffed
  unfolding diff_key
  diff_keys deeper p m n [] o = some (ok o)
  diff_keys deeper p m n (k ∷ ks) o =
      diff_then
        (diff_key deeper (append_path p (element_from_key k)) (find_field k m) (find_field k n) o)
        (λ o'. diff_keys deeper p m n ks o')

  -- `diffObject`
  unfoldable pub diff_object : Deeper → DocPath → Value → Value → Operation Value → Diffed
  unfolding diff_keys add_keys
  diff_object deeper p from to o = elim (V.get_map from) [
    | none ↦ some (err plain)
    | some m ↦ elim (V.get_map to) [
      | none ↦ some (err plain)
      | some n ↦ diff_keys deeper p m n (add_keys m (add_keys n [])) o
    ]
  ]

  -- The loop of `diffArray`, from index `i` on.
  unfoldable pub diff_elements :
      Deeper → DocPath → ℕ → List Value → List Value → Operation Value → Diffed
  diff_elements deeper p i (v ∷ vs) (w ∷ ws) o =
      diff_then (deeper (append_path p (element_from_index (pos i))) v w o)
        (λ o'. diff_elements deeper p (suc i) vs ws o')
  diff_elements deeper p i _ _ o = some (ok o)

  -- `diffArray`
  unfoldable pub diff_array : Deeper → DocPath → Value → Value → Operation Value → Diffed
  unfolding diff_elements append_replace
  diff_array deeper p from to o = elim (V.get_array from) [
    | none ↦ some (err plain)
    | some vs ↦ elim (V.get_array to) [
      | none ↦ some (err plain)
      | some ws ↦
          if not (length vs == length ws)
          then some (append_replace p from to o)
          else diff_elements deeper p 0 vs ws o
    ]
  ]

  -- `diffInto`
  unfoldable pub diff_into : ℕ → DocPath → Value → Value → Operation Value → Diffed
  unfolding diff_object diff_array diff_number append_replace
  diff_into zero p from to o = none
  diff_into (suc fuel) p from to o =
      let deeper = diff_into fuel in
      if V.equals from to
      then some (ok o)
      else if V.is_object from && V.is_object to
      then diff_object deeper p from to o
      else if V.is_array from && V.is_array to
      then diff_array deeper p from to o
      else if V.is_numeric from && V.is_numeric to
      then some (diff_number p from to o)
      else some (append_replace p from to o)

  -- `JSONOperationTransformer.Diff`
  unfoldable pub diff : ℕ → Value → Value → Diffed
  unfolding diff_into
  diff fuel from to = diff_into fuel [] from to []
