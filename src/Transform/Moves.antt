-- ===== src/Transform/Moves.antt =====
-- transform.go: the results of a transform, the index shifts, and a concurrent `ListMove`.
use jsonot.Base.{
  Bool, false, not, ◌&&◌, ◌||◌, List, [], ◌∷◌, ◌==◌, if◌then◌else◌, length, ℤ, pos, ltb_ℤ, eq_ℤ,
  add_int, sub_int, Result, ok, ◌>>=◌, must,
}
use jsonot.Operator.{Operator, list_insert, list_move}
use jsonot.Path.{
  DocPath, PathElement, same_element, get, increase_index, decrease_index, replace,
  element_from_index,
}
use jsonot.SubType.Interface.{TransformSide, is_right}
use jsonot.Component.{Component, is_sub_type, operate_path_len}

-- `mo.Result[[]*OperationComponent]`, which may hold an error beside the `error` that is always nil,
-- and the new component behind the caller's pointer.
pub record Outcome (V : Type 0) : Type 0 where
  pub components : Result (List (Component V))
  pub new_op : Component V

-- `Path.Get(i).MustGet()`
unfoldable pub must_element : DocPath → ℤ → Result PathElement
unfolding get
must_element p i = do a ← get p i; must a

abbrev pub when {ℓ} : {A : Type ℓ} → Bool → (A → Result A) → A → Result A
when b f a = if b then f a else ok a

abbrev add_if : Bool → ℤ → ℤ
add_if b n = if b then add_int n (pos 1) else n

abbrev sub_if : Bool → ℤ → ℤ
sub_if b n = if b then sub_int n (pos 1) else n

-- The index of `mergeListMoveIndex`.
unfoldable pub merged_index : ℤ → TransformSide → ℤ → ℤ → ℤ → ℤ → ℤ
merged_index n side from to other_from other_to =
    let a =
      add_if
        (not (ltb_ℤ other_to from)
          && eq_ℤ from other_to
          && ltb_ℤ other_to other_from
          && eq_ℤ from to)
        n in
    let b = sub_if (ltb_ℤ other_from to || (eq_ℤ to other_from && ltb_ℤ from to)) a in
    let c = add_if (ltb_ℤ other_to to) b in
    if eq_ℤ to other_to
    then if (ltb_ℤ other_from other_to && ltb_ℤ from to)
        || (ltb_ℤ other_to other_from && ltb_ℤ to from)
      then add_if (is_right side) c
      else if ltb_ℤ from to
      then add_int c (pos 1)
      else sub_if (eq_ℤ to other_from) c
    else c

module _ {V : Type 0} where
  -- `mo.Ok([]*OperationComponent{newOp})`
  abbrev pub keep : Component V → Outcome V
  keep c = record { components = ok (c ∷ []); new_op = c }

  -- `mo.Ok([]*OperationComponent{})`
  abbrev pub drop_new : Component V → Outcome V
  drop_new c = record { components = ok []; new_op = c }

  -- `IsSameOperand`
  unfoldable pub is_same_operand : Component V → Component V → Bool
  is_same_operand a b =
      if is_sub_type a.operator || is_sub_type b.operator
      then false
      else length a.path == length b.path

  -- `newOp.Path.IncreaseIndex(i)`, `DecreaseIndex`, `Replace`
  unfoldable pub shift_up : Component V → ℤ → Result (Component V)
  shift_up c i = do (p, moved) ← increase_index c.path i; ok (record c { path = p })

  unfoldable pub shift_down : Component V → ℤ → Result (Component V)
  shift_down c i = do (p, moved) ← decrease_index c.path i; ok (record c { path = p })

  unfoldable pub put_element : Component V → ℤ → PathElement → Result (Component V)
  put_element c i a = do (p, old) ← replace c.path i a; ok (record c { path = p })

  abbrev pub with_operator : Component V → Operator V → Component V
  with_operator c o = record c { operator = o }

  -- The two path steps of `mergeListMoveIndex`, and whether the second one counted the index up.
  merged_path : Component V → ℤ → ℤ → ℤ → ℤ → Result (Component V)
  unfolding shift_up shift_down
  merged_path c at from other_from other_to = do
    c' ← when (ltb_ℤ other_from from) (λ (d : Component V). shift_down d at) c
    when (ltb_ℤ other_to from || (eq_ℤ from other_to && ltb_ℤ other_to other_from))
        (λ (d : Component V). shift_up d at) c'

  -- `mergeListMoveIndex`
  unfoldable pub merge_list_move_index :
      Component V → ℤ → ℤ → TransformSide → ℤ → ℤ → ℤ → ℤ → Result (Component V)
  unfolding merged_path merged_index
  merge_list_move_index c n at side from to other_from other_to = do
    c' ← merged_path c at from other_from other_to
    ok (with_operator c' (list_move (merged_index n side from to other_from other_to)))

  same_origin :
      Component V
      → Component V
      → ℤ
      → TransformSide
      → PathElement
      → PathElement
      → PathElement
      → Result (Outcome V)
  unfolding put_element
  same_origin new base at side from to other_to =
      if same_element to other_to || is_right side then ok (drop_new new) else do
        moved ← put_element new at other_to
        ok (keep (if same_element from to then with_operator moved base.operator else moved))

  -- `TransformComponentForListMoveWithListMove`
  unfoldable pub list_move_with_list_move :
      Component V → Component V → TransformSide → ℤ → ℤ → Result (Outcome V)
  unfolding same_origin merge_list_move_index must_element
  list_move_with_list_move new base side base_to new_to = do
    other_from ← must_element base.path (operate_path_len new)
    if same_element other_from (element_from_index base_to) then ok (keep new) else (do
      from ← must_element new.path (operate_path_len new)
      if same_element from other_from
          then same_origin new base (operate_path_len base) side from (element_from_index new_to)
              (element_from_index base_to)
          else (do
            c ←
                merge_list_move_index new new_to (operate_path_len base) side from.index new_to
                  other_from.index base_to
            ok (keep c)))

  -- `TransformComponentForListMoveWithListInsert`
  unfoldable pub list_move_with_list_insert : Component V → Component V → ℤ → Result (Outcome V)
  unfolding shift_up shift_down must_element
  list_move_with_list_insert new base to = do
    from ← must_element base.path (operate_path_len base)
    p ← must_element new.path (operate_path_len base)
    c ←
        when (ltb_ℤ from.index p.index) (λ (d : Component V). shift_down d (operate_path_len base))
          new
    c' ← when (ltb_ℤ to p.index) (λ (d : Component V). shift_up d (operate_path_len base)) c
    ok (keep c')

  -- The rest of `TransformComponentForListMove`.
  list_move_over : Component V → Component V → ℤ → Result (Outcome V)
  unfolding put_element shift_up shift_down must_element
  list_move_over new base to = do
    from ← must_element base.path (operate_path_len base)
    p ← must_element new.path (operate_path_len base)
    if eq_ℤ p.index from.index
        then (do c ← put_element new (operate_path_len base) (element_from_index to); ok (keep c))
        else (do
          c ←
              when (ltb_ℤ from.index p.index)
                (λ (d : Component V). shift_down d (operate_path_len base)) new
          c' ←
              when (ltb_ℤ to p.index || (eq_ℤ p.index to && ltb_ℤ to from.index))
                (λ (d : Component V). shift_up d (operate_path_len base)) c
          ok (keep c'))

  move_same_operand :
      Component V → Component V → TransformSide → ℤ → Operator V → Result (Outcome V)
  unfolding list_move_with_list_move list_move_with_list_insert list_move_over
  move_same_operand new base side to (list_move new_to) =
      list_move_with_list_move new base side to new_to
  move_same_operand new base side to (list_insert v) = list_move_with_list_insert new base to
  move_same_operand new base side to _ = list_move_over new base to

  -- `TransformComponentForListMove`
  unfoldable pub transform_list_move :
      Component V → Component V → TransformSide → ℤ → Result (Outcome V)
  unfolding move_same_operand is_same_operand
  transform_list_move new base side to =
      if is_same_operand base new
      then move_same_operand new base side to new.operator
      else list_move_over new base to
