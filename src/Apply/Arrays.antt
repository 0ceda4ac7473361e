-- ===== src/Apply/Arrays.antt =====
-- apply.go: the operators on an array.
use jsonot.Base.{
  ℕ, suc, Bool, false, none, some, List, [], ◌∷◌, ◌++◌, ltb, if◌then◌else◌, length, get_elem?, set,
  insert_at, delete_at, ℤ, pos, negsuc, eq_ℤ, bad_path, Result, ok, panic, fail,
}
use jsonot.Value.{Values, is_simple_value}
use jsonot.Operator.{Operator, list_insert, list_delete, list_replace, list_move}
use jsonot.Path.{DocPath, first_index_path}

module _ (V : Values) where
  open V use {Value}

  -- The indexes at which a value stands, counted from `k`.
  indexes_of : ℕ → List Value → Value → List ℕ
  indexes_of k [] x = []
  indexes_of k (v ∷ vs) x =
      let rest = indexes_of (suc k) vs x in if V.equals v x then k ∷ rest else rest

  abbrev the_only : List ℕ → ℤ → ℤ
  the_only (k ∷ []) i = pos k
  the_only _ i = i

  abbrev stands_at : List Value → Value → ℤ → Bool
  stands_at arr x (negsuc i) = false
  stands_at arr x (pos i) = elim (get_elem? arr i) [ none ↦ false | some v ↦ V.equals v x ]

  -- `IndexFunc`
  unfoldable pub index_func : List Value → Value → ℤ → ℤ
  unfolding indexes_of is_simple_value
  index_func [] x i = negsuc 0
  index_func (v ∷ vs) x i =
      if stands_at (v ∷ vs) x i
      then i
      else if is_simple_value V x
      then the_only (indexes_of 0 (v ∷ vs) x) i
      else i

  delete_found : List Value → ℤ → List Value
  delete_found arr (pos i) = if ltb i (length arr) then delete_at arr i else arr
  delete_found arr (negsuc i) = arr

  -- `ApplyListDelete`
  unfoldable pub apply_list_delete : List Value → Value → ℕ → List Value
  unfolding index_func delete_found
  apply_list_delete arr old i = delete_found arr (index_func arr old (pos i))

  -- `ApplyListInsert`
  unfoldable pub apply_list_insert : List Value → Value → ℕ → List Value
  apply_list_insert arr new i = if ltb (length arr) i then arr ++ new ∷ [] else insert_at arr i new

  replace_found : List Value → Value → ℤ → List Value
  replace_found arr new (negsuc i) = arr
  replace_found arr new (pos i) =
      if ltb 0 i
      then elim (get_elem? arr i) [
        | none ↦ arr
        | some target ↦ if V.is_null target then arr else set arr i new
      ]
      else arr

  -- `ApplyListReplace`: index 0 is left out by the test `index > 0`.
  unfoldable pub apply_list_replace : List Value → Value → Value → ℕ → List Value
  unfolding index_func replace_found
  apply_list_replace arr new old i = replace_found arr new (index_func arr old (pos i))

  -- `slices.Insert` panics at a negative index.
  unfoldable pub move_to : List Value → Value → ℤ → Result (List Value)
  move_to arr v (negsuc j) = panic
  move_to arr v (pos j) = ok (if ltb (length arr) j then arr ++ v ∷ [] else insert_at arr j v)

  -- `ApplyListMove`: index 0 is left out here too.
  unfoldable pub apply_list_move : List Value → ℤ → ℕ → Result (List Value)
  unfolding move_to
  apply_list_move arr to i =
      if ltb 0 i
      then elim (get_elem? arr i) [
        | none ↦ ok arr
        | some old ↦ if eq_ℤ (pos i) to then ok arr else move_to (delete_at arr i) old to
      ]
      else ok arr

  apply_at : List Value → ℕ → Operator Value → Result (List Value)
  unfolding apply_list_delete apply_list_insert apply_list_replace apply_list_move
  apply_at arr i (list_delete old) = ok (apply_list_delete arr old i)
  apply_at arr i (list_insert new) = ok (apply_list_insert arr new i)
  apply_at arr i (list_replace new old) = ok (apply_list_replace arr new old i)
  apply_at arr i (list_move to) = apply_list_move arr to i
  apply_at arr i _ = ok arr

  apply_at_index : List Value → ℤ → Operator Value → Result (List Value)
  unfolding apply_at
  apply_at_index arr (pos i) op = apply_at arr i op
  apply_at_index arr (negsuc i) op = ok arr

  -- `ApplyToArray`
  unfoldable pub apply_to_array : List Value → DocPath → Operator Value → Result (List Value)
  unfolding apply_at_index first_index_path
  apply_to_array arr p op = elim (first_index_path p) [
    | none ↦ fail bad_path
    | some i ↦ apply_at_index arr i op
  ]
