-- ===== src/Engine.antt =====
-- jsonot.go: `JSONOperationTransformer`, which validates an operation and applies its components.
use jsonot.Base.{List, [], ◌∷◌, if◌then◌else◌, is_nil, Result, ok, ◌>>=◌, ◌>>◌}
use jsonot.Value.{Values}
use jsonot.SubType.Interface.{Clients}
use jsonot.Component.{Component}
use jsonot.Operation.{Operation, operation_validation}
use jsonot.Apply.{apply_to_value, apply_to_root_value}

module _ (V : Values) (C : Clients V) where
  open V use {Value}

  -- One round of the loop of `Apply`.
  unfoldable pub apply_component : Value → Component Value → Result Value
  unfolding apply_to_value apply_to_root_value
  apply_component v c =
      if is_nil c.path
      then apply_to_root_value V C v c.operator
      else apply_to_value V C v c.path c.operator

  unfoldable pub apply_components : Value → Operation Value → Result Value
  unfolding apply_component
  apply_components v [] = ok v
  apply_components v (c ∷ o) = do w ← apply_component v c; apply_components w o

  -- `Apply`
  unfoldable pub apply : Value → Operation Value → Result Value
  unfolding apply_components operation_validation
  apply v [] = ok v
  apply v (c ∷ o) = do operation_validation (c ∷ o); apply_components (V.pack_any v) (c ∷ o)

  -- `Applies`
  unfoldable pub applies : Value → List (Operation Value) → Result Value
  unfolding apply
  applies v [] = ok v
  applies v (o ∷ os) = do w ← apply v o; applies w os
