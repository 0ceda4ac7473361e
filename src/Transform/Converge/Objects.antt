-- ===== src/Transform/Converge/Objects.antt =====
-- transform.go on two concurrent operators at one key of an object.
use jsonot.Base.{◌≡◌, false, [], ◌∷◌, arith, Bytes, str_eq_refl, ok}
use jsonot.Value.{Values}
use jsonot.Operator.{Operator, object_insert, object_delete, object_replace}
use jsonot.Path.{element_from_key}
use jsonot.SubType.Interface.{Clients, TransformSide, left, right}
use jsonot.Component.{Component}
use jsonot.Transform.{transform_component}
use jsonot.Transform.Moves.{drop_new}
use jsonot.Transform.Lists.{instead}

abbrev pub at_key : {V : Type 0} → Bytes → Operator V → Component V
at_key k op = record { operator = op; path = element_from_key k ∷ [] }

module _ (V : Values) (C : Clients V) (k : Bytes) where
  open V use {Value}

  -- The left insertion writes over the right one, which is dropped.
  pub insert_over_insert :
      (x y : Value)
      → (transform_component V C (at_key k (object_insert x)) (at_key k (object_insert y)) left
          ≡ ok (instead (at_key k (object_insert x)) (at_key k (object_replace x y))))
        × (transform_component V C (at_key k (object_insert y)) (at_key k (object_insert x)) right
            ≡ ok (drop_new (at_key k (object_insert y))))
  unfolding transform_component
  insert_over_insert x y = ground (arith, str_eq_refl k)

  pub delete_over_delete :
      (x y : Value) (side : TransformSide)
      → transform_component V C (at_key k (object_delete x)) (at_key k (object_delete y)) side
        ≡ ok (drop_new (at_key k (object_delete x)))
  unfolding transform_component
  delete_over_delete x y left = ground (arith, str_eq_refl k)
  delete_over_delete x y right = ground (arith, str_eq_refl k)

  -- Of two replacements the left one stays.
  pub replace_over_replace :
      (x y a b : Value)
      → V.equals x a ≡ false
      → V.equals y b ≡ false
      → (transform_component V C
            (at_key k (object_replace x a))
            (at_key k (object_replace y b))
            left
          ≡ ok (instead (at_key k (object_replace x a)) (at_key k (object_replace x y))))
        × (transform_component V C
              (at_key k (object_replace y b))
              (at_key k (object_replace x a))
              right
            ≡ ok (drop_new (at_key k (object_replace y b))))
  unfolding transform_component
  replace_over_replace x y a b h g = ground (arith, str_eq_refl k)

  -- A left replacement inserts its value again after a right deletion, which is dropped.
  pub replace_over_delete :
      (x a b : Value)
      → V.equals x a ≡ false
      → (transform_component V C (at_key k (object_replace x a)) (at_key k (object_delete b)) left
          ≡ ok (instead (at_key k (object_replace x a)) (at_key k (object_insert x))))
        × (transform_component V C
              (at_key k (object_delete b))
              (at_key k (object_replace x a))
              right
            ≡ ok (drop_new (at_key k (object_delete b))))
  unfolding transform_component
  replace_over_delete x a b h = ground (arith, str_eq_refl k)

  -- A left deletion and a right replacement drop each other.
  pub delete_over_replace :
      (x a b : Value)
      → V.equals x a ≡ false
      → (transform_component V C (at_key k (object_delete b)) (at_key k (object_replace x a)) left
          ≡ ok (drop_new (at_key k (object_delete b))))
        × (transform_component V C
              (at_key k (object_replace x a))
              (at_key k (object_delete b))
              right
            ≡ ok (drop_new (at_key k (object_replace x a))))
  unfolding transform_component
  delete_over_replace x a b h = ground (arith, str_eq_refl k)
