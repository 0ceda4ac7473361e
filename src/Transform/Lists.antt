-- ===== src/Transform/Lists.antt =====
-- transform.go: rebasing over a concurrent `ListReplace`, `ListInsert` and `ListDelete`.
use jsonot.Base.{
  Bool, true, false, not, ◌&&◌, ◌||◌, Option, none, some, [], ◌∷◌, if◌then◌else◌, ℤ, pos, ltb_ℤ,
  leb_ℤ, eq_ℤ, add_int, sub_int, Result, ok, ◌>>=◌,
}
use jsonot.Operator.{Operator, list_insert, list_delete, list_replace, list_move}
use jsonot.Path.{PathElement, get, is_prefix_of}
use jsonot.SubType.Interface.{TransformSide, left, right, is_right}
use jsonot.Component.{Component, new_component, operate_path_len}
use jsonot.Transform.Moves.{
  Outcome, keep, drop_new, is_same_operand, shift_up, shift_down, with_operator, must_element, when,
}

abbrev index_le : Option PathElement → Option PathElement → Bool
index_le (some a) (some b) = leb_ℤ a.index b.index
index_le _ _ = false

abbrev index_le_int : Option PathElement → ℤ → Bool
index_le_int (some a) n = leb_ℤ a.index n
index_le_int none n = false

module _ {V : Type 0} where
  -- `mo.Ok` of one new component in place of the receiver.
  abbrev pub instead : Component V → Component V → Outcome V
  instead new c = record { components = ok (c ∷ []); new_op = new }

  replace_over_replace : Component V → TransformSide → V → Operator V → Outcome V
  unfolding new_component
  replace_over_replace new left w (list_replace n old) =
      instead new (new_component new.path (list_replace n w))
  replace_over_replace new right w (list_replace n old) = drop_new new
  replace_over_replace new side w (list_delete old) = drop_new new
  replace_over_replace new side w _ = keep new

  -- `TransformComponentForListReplace`
  unfoldable pub transform_list_replace : Component V → Component V → TransformSide → V → Outcome V
  unfolding replace_over_replace is_prefix_of is_same_operand
  transform_list_replace new base side w =
      if not (is_prefix_of base.path new.path)
      then keep new
      else if not (is_same_operand base new)
      then drop_new new
      else replace_over_replace new side w new.operator

  abbrev is_list_insert : Operator V → Bool
  is_list_insert (list_insert v) = true
  is_list_insert _ = false

  -- A move's target goes up with the index of the insertion at or before it.
  move_target_up : Bool → Option PathElement → Operator V → Operator V
  move_target_up same at (list_move to) =
      list_move (if same && index_le_int at to then add_int to (pos 1) else to)
  move_target_up same at op = op

  insert_over_all : Component V → Component V → Result (Outcome V)
  unfolding shift_up move_target_up get is_same_operand
  insert_over_all new base = do
    p ← get base.path (operate_path_len base)
    q ← get new.path (operate_path_len base)
    c ← when (index_le p q) (λ (d : Component V). shift_up d (operate_path_len base)) new
    ok (keep (with_operator c (move_target_up (is_same_operand base new) p c.operator)))

  -- `TransformComponentForListInsert`
  unfoldable pub transform_list_insert :
      Component V → Component V → TransformSide → Result (Outcome V)
  unfolding insert_over_all shift_up is_same_operand is_prefix_of operate_path_len
  transform_list_insert new base side =
      if is_list_insert new.operator && is_same_operand base new && is_prefix_of base.path new.path
      then (do
        c ← when (is_right side) (λ (d : Component V). shift_up d (operate_path_len base)) new
        ok (keep c))
      else insert_over_all new base

  abbrev is_list_move : Operator V → Bool
  is_list_move (list_move to) = true
  is_list_move _ = false

  -- A move's target goes down with the index of a deletion before it.
  move_target_down : ℤ → ℤ → Operator V → Operator V
  move_target_down b n (list_move to) =
      list_move (if ltb_ℤ b to || (eq_ℤ b to && ltb_ℤ n to) then sub_int to (pos 1) else to)
  move_target_down b n op = op

  deleted_operand : Component V → Operator V → Outcome V
  unfolding new_component
  deleted_operand new (list_delete old) = drop_new new
  deleted_operand new (list_replace n old) = instead new (new_component new.path (list_insert n))
  deleted_operand new _ = keep new

  delete_over_all : Component V → Component V → ℤ → ℤ → Result (Outcome V)
  unfolding shift_down deleted_operand is_prefix_of is_same_operand operate_path_len
  delete_over_all new base b n =
      if ltb_ℤ b n
      then (do c ← shift_down new (operate_path_len base); ok (keep c))
      else if is_prefix_of base.path new.path
      then ok (
          if not (is_same_operand base new) then drop_new new else deleted_operand new new.operator)
      else ok (keep new)

  -- `TransformComponentForListDelete`
  unfoldable pub transform_list_delete : Component V → Component V → Result (Outcome V)
  unfolding delete_over_all move_target_down must_element is_same_operand is_prefix_of
  transform_list_delete new base = do
    b ← must_element base.path (operate_path_len base)
    n ← must_element new.path (operate_path_len base)
    if is_list_move new.operator && is_same_operand base new
        then if is_prefix_of base.path new.path
          then ok (drop_new new)
          else delete_over_all (with_operator new (move_target_down b.index n.index new.operator))
              base b.index n.index
        else delete_over_all new base b.index n.index
