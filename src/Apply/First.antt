-- ===== src/Apply/First.antt =====
-- apply.go: a replacement of the first element.
use jsonot.Base.{◌≡◌, some, List, [], ◌∷◌, pos, ok}
use jsonot.Value.{Values, ValueType}
use jsonot.Value.Laws.{ValueLaws}
use jsonot.Operator.{list_replace}
use jsonot.Path.{element_from_index, first_index_path, element_index}
use jsonot.SubType.Interface.{Clients}
use jsonot.Apply.{apply_here}
use jsonot.Apply.Arrays.{apply_to_array, apply_list_replace, index_func}

module _ (V : Values) (laws : ValueLaws V) (C : Clients V) where
  open V use {Value}

  replace_first : (xs : List Value) (x new : Value) → apply_list_replace V (x ∷ xs) new x 0 ≡ x ∷ xs
  unfolding apply_list_replace index_func
  replace_first xs x new = rw (laws.equality x)

  -- A replacement of the first element of an array, which names that element, succeeds and leaves
  -- the array as it was.
  pub apply-replace_first :
      (v x new : Value) (xs : List Value)
      → V.type_of v ≡ ValueType.array
      → V.get_array v ≡ some (x ∷ xs)
      → (w : Value) × (apply_here V C v (element_from_index (pos 0) ∷ []) (list_replace new x)
          ≡ ok w)
        × (V.get_array w ≡ some (x ∷ xs))
  unfolding apply_here apply_to_array first_index_path element_index
  apply-replace_first v x new xs t e =
      let (w, put) = laws.arrays.update_array_some v (x ∷ xs) t in
      (
        w,
        rw (t, e, replace_first xs x new, put),
        laws.arrays.get_array-update_array v w (x ∷ xs) put,
      )
