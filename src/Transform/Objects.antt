-- ===== src/Transform/Objects.antt =====
-- transform.go: rebasing over a concurrent `ObjectReplace`, `ObjectInsert` and `ObjectDelete`.
use jsonot.Base.{not, [], ◌∷◌, if◌then◌else◌, ok}
use jsonot.Operator.{Operator, object_insert, object_delete, object_replace}
use jsonot.Path.{is_prefix_of}
use jsonot.SubType.Interface.{TransformSide, left, right}
use jsonot.Component.{Component, new_component}
use jsonot.Transform.Moves.{Outcome, keep, drop_new, is_same_operand}
use jsonot.Transform.Lists.{instead}

module _ {V : Type 0} where
  replaced_operand : Component V → TransformSide → V → Operator V → Outcome V
  unfolding new_component
  replaced_operand new left w (object_replace n old) =
      instead new (new_component new.path (object_replace n w))
  replaced_operand new left w (object_insert n) =
      instead new (new_component new.path (object_replace n w))
  replaced_operand new side w _ = drop_new new

  -- `TransformComponentForObjectReplace`
  unfoldable pub transform_object_replace :
      Component V → Component V → TransformSide → V → Outcome V
  unfolding replaced_operand is_prefix_of is_same_operand
  transform_object_replace new base side w =
      if not (is_prefix_of base.path new.path)
      then keep new
      else if not (is_same_operand base new)
      then drop_new new
      else replaced_operand new side w new.operator

  -- The left side writes over what the base has inserted.
  over_inserted : Component V → Component V → V → V → Outcome V
  unfolding new_component is_same_operand
  over_inserted new base n w =
      if is_same_operand base new
      then instead new (new_component base.path (object_replace n w))
      else record {
        components = ok (new_component base.path (object_delete w) ∷ new ∷ []);
        new_op = new;
      }

  inserted_operand : Component V → Component V → TransformSide → V → Operator V → Outcome V
  unfolding over_inserted
  inserted_operand new base left w (object_replace n old) = over_inserted new base n w
  inserted_operand new base left w (object_insert n) = over_inserted new base n w
  inserted_operand new base left w (object_delete old) = keep new
  inserted_operand new base right w (object_replace n old) = drop_new new
  inserted_operand new base right w (object_insert n) = drop_new new
  inserted_operand new base right w (object_delete old) = drop_new new
  inserted_operand new base side w _ = keep new

  -- `TransformComponentForObjectInsert`
  unfoldable pub transform_object_insert : Component V → Component V → TransformSide → V → Outcome V
  unfolding inserted_operand is_prefix_of
  transform_object_insert new base side w =
      if not (is_prefix_of base.path new.path)
      then keep new
      else inserted_operand new base side w new.operator

  deleted_key : Component V → TransformSide → Operator V → Outcome V
  unfolding new_component
  deleted_key new left (object_replace n old) =
      instead new (new_component new.path (object_insert n))
  deleted_key new left (object_insert n) = instead new (new_component new.path (object_insert n))
  deleted_key new side _ = drop_new new

  -- `TransformComponentForObjectDelete`
  unfoldable pub transform_object_delete : Component V → Component V → TransformSide → Outcome V
  unfolding deleted_key is_prefix_of is_same_operand
  transform_object_delete new base side =
      if not (is_prefix_of base.path new.path)
      then keep new
      else if not (is_same_operand base new)
      then drop_new new
      else deleted_key new side new.operator
