-- ===== src/Transform/Matrix.antt =====
-- transform.go: `Transform`, `TransformMatrix` and `TransformMulti`, over whole operations. A loop
-- changes the components of its operands through their pointers, so each returns them too.
use jsonot.Base.{
  ◌||◌, Option, none, some, List, [], ◌∷◌, ◌++◌, if◌then◌else◌, Result, ok, err, panic, ◌>>=◌, ◌>>◌,
  must_get,
}
use jsonot.Value.{Values}
use jsonot.SubType.Interface.{Clients, left, right}
use jsonot.Component.{Component, not_noop, clone_component}
use jsonot.Operation.{Operation, is_empty, operation_validation}
use jsonot.Transform.{transform_component}

-- The result of `TransformMulti`: the new operation, and the base component as it is left.
pub record Multi (V : Type 0) : Type 0 where
  pub out : List (Component V)
  pub base_op : Component V

-- What the loop of `TransformMatrix` leaves: `outB`, and the components of the base operation. The
-- pointers of `outB` are those of the base operation's components.
pub record Matrix (V : Type 0) : Type 0 where
  pub out_b : List (Component V)
  pub base_ops : List (Component V)

-- The results of `Transform`; `none` is the nil list of `EmptyOperation`.
pub record Transformed (V : Type 0) : Type 0 where
  pub left_op : List (Component V)
  pub right_op : Option (List (Component V))

module _ (V : Values) (C : Clients V) where
  open V use {Value}

  -- The rest of a round of `TransformMulti`, behind its two calls. `base_op` is what the caller's
  -- pointer shows, `same` says whether `base` is that pointer still.
  unfoldable pub multi_rest :
      Result (List (Component Value))
      → Result (List (Component Value))
      → Multi Value
      → (Component Value → Result (Multi Value))
      → Result (Multi Value)
  multi_rest front (err e) m loop = err e
  multi_rest front panic m loop = panic
  multi_rest front (ok []) m loop = ok m
  multi_rest front (ok (b ∷ [])) m loop = ok m
  multi_rest front (ok (b ∷ (b' ∷ bs))) m loop = do
    cs ← must_get front
    r ← loop b
    ok (record r { out = cs ++ r.out; base_op = m.base_op })

  -- The loop of `TransformMulti` while `base` is present.
  unfoldable pub multi_loop : Operation Value → Component Value → Result (Multi Value)
  unfolding multi_rest
  multi_loop [] base = ok (record { out = []; base_op = base })
  multi_loop (op ∷ ops) base = do
    a ← transform_component V C op base left
    b ← transform_component V C base a.new_op right
    multi_rest a.components b.components (record { out = []; base_op = b.new_op })
        (λ next. multi_loop ops next)

  -- `TransformMulti`
  unfoldable pub transform_multi : Operation Value → Component Value → Result (Multi Value)
  unfolding multi_loop not_noop
  transform_multi ops base = elim (not_noop base) [
    | none ↦ ok (record { out = ops; base_op = base })
    | some b ↦ multi_loop ops b
  ]

  -- The loop of `TransformMatrix`. `TransformMulti` returns the pointer of its base component, so
  -- what is appended to `outB` shows what that call leaves in it.
  unfoldable pub matrix_loop : Operation Value → Operation Value → Result (Matrix Value)
  unfolding transform_multi
  matrix_loop ops [] = ok (record { out_b = []; base_ops = [] })
  matrix_loop ops (base ∷ bases) = do
    m ← transform_multi ops base
    rest ← matrix_loop m.out bases
    ok (record { out_b = m.base_op ∷ rest.out_b; base_ops = m.base_op ∷ rest.base_ops })

  -- `TransformMatrix`
  unfoldable pub transform_matrix : Operation Value → Operation Value → Result (Transformed Value)
  unfolding matrix_loop
  transform_matrix ops bases =
      if is_empty ops || is_empty bases
      then ok (record { left_op = ops; right_op = some bases })
      else do
        m ← matrix_loop ops bases
        ok (record { left_op = m.out_b; right_op = some m.base_ops })

  transform_single : Component Value → Component Value → Result (Transformed Value)
  transform_single new base = do
    l ← transform_component V C (clone_component new) (clone_component base) left
    r ← transform_component V C (clone_component base) (clone_component new) right
    ls ← must_get l.components
    rs ← must_get r.components
    ok (record { left_op = ls; right_op = some rs })

  transform_validated : Operation Value → Operation Value → Result (Transformed Value)
  unfolding transform_single transform_matrix
  transform_validated (new ∷ []) (base ∷ []) = transform_single new base
  transform_validated ops bases = transform_matrix ops bases

  -- `Transformer.Transform`
  unfoldable pub transform : Operation Value → Operation Value → Result (Transformed Value)
  unfolding transform_validated operation_validation
  transform ops bases =
      if is_empty bases
      then ok (record { left_op = ops; right_op = none })
      else do operation_validation ops; operation_validation bases; transform_validated ops bases
