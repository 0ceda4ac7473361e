-- ===== src/Transform/Converge/Writes.antt =====
-- Operators at one key of an object (apply.go, transform.go): `Transform` of two of them, what each
-- does to the object, and what two of them do one after the other.
use jsonot.Base.{◌≡◌, some, List, [], ◌∷◌, arith, Bytes, ok}
use jsonot.Value.{Values, ValueType}
use jsonot.Value.Laws.{ValueLaws}
use jsonot.Operator.{Operator, object_insert, object_delete, object_replace}
use jsonot.SubType.Interface.{Clients, left, right}
use jsonot.Component.{Component, clone_component, validation}
use jsonot.Apply.{apply_to_value}
use jsonot.Apply.Undo.Objects.{SameKeys, insert_here, replace_here, delete_here}
use jsonot.Engine.{apply_component, apply_components}
use jsonot.Transform.{transform_component}
use jsonot.Transform.Moves.{Outcome}
use jsonot.Transform.Matrix.{transform}
use jsonot.Transform.Converge.Objects.{at_key}

module _ (V : Values) (laws : ValueLaws V) (C : Clients V) (k : Bytes) where
  open V use {Value}

  -- `Transform` of the two operations, from `TransformComponent` of their components.
  pub transform-at_key :
      (o p : Operator Value) (a b : Outcome Value) (ls rs : List (Component Value))
      → validation (at_key k o) ≡ ok tt
      → validation (at_key k p) ≡ ok tt
      → clone_component (at_key k o) ≡ at_key k o
      → clone_component (at_key k p) ≡ at_key k p
      → transform_component V C (at_key k o) (at_key k p) left ≡ ok a
      → transform_component V C (at_key k p) (at_key k o) right ≡ ok b
      → a.components ≡ ok ls
      → b.components ≡ ok rs
      → transform V C (at_key k o ∷ []) (at_key k p ∷ [])
        ≡ ok (record { left_op = ls; right_op = some rs })
  unfolding transform
  transform-at_key o p a b ls rs v v' c c' t t' e e' = rw (v, v', c) (rw (c', t, t', e, e'))

  -- Both orders, and the two documents.
  abbrev pub Converges : Operator Value → Operator Value → Value → Type 0
  Converges o p v =
      (ls rs : List (Component Value)) × (transform V C (at_key k o ∷ []) (at_key k p ∷ [])
        ≡ ok (record { left_op = ls; right_op = some rs }))
      × (w u : Value) × (apply_components V C v (at_key k p ∷ ls) ≡ ok w)
      × (apply_components V C v (at_key k o ∷ rs) ≡ ok u)
      × SameKeys V laws C w u

  pub insert_component :
      (v w x : Value)
      → V.type_of v ≡ ValueType.object
      → V.set_key v k x ≡ some w
      → apply_component V C v (at_key k (object_insert x)) ≡ ok w
  unfolding apply_component apply_to_value
  insert_component v w x t s = insert_here V laws C v w x k t s

  pub replace_component :
      (v w x y : Value)
      → V.type_of v ≡ ValueType.object
      → V.set_key v k x ≡ some w
      → apply_component V C v (at_key k (object_replace x y)) ≡ ok w
  unfolding apply_component apply_to_value
  replace_component v w x y t s = replace_here V laws C v w x y k t s

  pub delete_component :
      (v w x y : Value)
      → V.type_of v ≡ ValueType.object
      → V.get_key v k ≡ some y
      → V.delete_key v k ≡ some w
      → apply_component V C v (at_key k (object_delete x)) ≡ ok w
  unfolding apply_component apply_to_value
  delete_component v w x y t held d = delete_here V laws C v w x y k t held d

  pub two_writes :
      (v w u a x y : Value)
      → V.set_key v k y ≡ some a
      → V.set_key a k x ≡ some w
      → V.set_key v k x ≡ some u
      → SameKeys V laws C w u
  two_writes v w u a x y p q r j = ground (
    arith,
    laws.objects.get_key-set_key v y a k j p,
    laws.objects.get_key-set_key a x w k j q,
    laws.objects.get_key-set_key v x u k j r,
  )

  pub delete_write :
      (v w u a x : Value)
      → V.type_of v ≡ ValueType.object
      → V.delete_key v k ≡ some a
      → V.set_key a k x ≡ some w
      → V.set_key v k x ≡ some u
      → SameKeys V laws C w u
  delete_write v w u a x t p q r j = ground (
    arith,
    laws.objects.get_key-delete_key v a k j t p,
    laws.objects.get_key-set_key a x w k j q,
    laws.objects.get_key-set_key v x u k j r,
  )
