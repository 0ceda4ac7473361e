-- ===== src/Transform/Converge/Arrays.antt =====
-- Two concurrent edits of one array (transform.go, apply.go): whichever comes first, the other one,
-- transformed, leads to the same array.
use jsonot.Base.{
  ℕ, ◌≤◌, ◌≡◌, some, List, [], ◌∷◌, arith, length, get_elem?, insert_at, delete_at,
  lt-length_of_get_elem?, Result, ok, ◌>>=◌, must_get,
}
use jsonot.Value.{Values}
use jsonot.Value.Laws.{EqualsLaw}
use jsonot.Operator.{list_insert, list_delete}
use jsonot.Path.{first_index_path}
use jsonot.Component.{Component}
use jsonot.Apply.Arrays.{apply_to_array, apply_list_insert, apply_list_delete}
use jsonot.Apply.Undo.Arrays.{index_func_at, element_index-from_index}
use jsonot.Transform.Moves.{Outcome}
use jsonot.Transform.Converge.{at}

module _ (V : Values) where
  open V use {Value}

  -- The components of a list, applied to the elements of an array.
  pub run_on_array : List Value → List (Component Value) → Result (List Value)
  unfolding apply_to_array
  run_on_array xs [] = ok xs
  run_on_array xs (c ∷ cs) = do ys ← apply_to_array V xs c.path c.operator; run_on_array ys cs

  -- What an outcome does to an array.
  abbrev pub run_outcome : List Value → Outcome Value → Result (List Value)
  run_outcome xs o = do cs ← must_get o.components; run_on_array xs cs

  -- An insertion or a deletion, and what it does.
  pub data Edit : Type 0 where
    inserting deleting : ℕ → Value → Edit

  abbrev pub component : Edit → Component Value
  component (inserting i x) = at i (list_insert x)
  component (deleting i x) = at i (list_delete x)

  abbrev pub edit : Edit → List Value → List Value
  edit (inserting i x) xs = insert_at xs i x
  edit (deleting i x) xs = delete_at xs i

  -- The place exists, and a deletion names what stands there.
  abbrev pub Fits : Edit → List Value → Type 0
  Fits (inserting i x) xs = i ≤ length xs
  Fits (deleting i x) xs = get_elem? xs i ≡ some x

module _ (V : Values) (equality : EqualsLaw V) where
  open V use {Value}

  -- A fitting edit does to the array what the code does.
  pub apply-edit :
      (xs : List Value) (e : Edit V)
      → Fits V e xs
      → apply_to_array V xs (component V e).path (component V e).operator ≡ ok (edit V e xs)
  unfolding apply_to_array first_index_path apply_list_insert apply_list_delete
  apply-edit xs (inserting i x) h = rw (element_index-from_index i) (ground arith)
  apply-edit xs (deleting i x) h =
      rw (element_index-from_index i)
        (ground (arith, index_func_at V equality xs x i h, lt-length_of_get_elem? xs i h))
