-- ===== src/Transform/Converge/Keys.antt =====
-- Convergence on documents: `Transform` (transform.go) of two concurrent operators at one key of an
-- object, and the two orders in which they are applied.
use jsonot.Base.{◌≡◌, refl, false, none, some, [], ◌∷◌, Bytes, str_eq_refl, ok}
use jsonot.Value.{Values, ValueType}
use jsonot.Value.Laws.{ValueLaws}
use jsonot.Operator.{Operator, object_insert, object_delete, object_replace}
use jsonot.SubType.Interface.{Clients, left, right}
use jsonot.Component.{clone_component, validation}
use jsonot.Apply.Undo.Objects.{FitsObject}
use jsonot.Engine.{apply_components}
use jsonot.Transform.Matrix.{transform}
use jsonot.Transform.Converge.Writes.{
  transform-at_key, Converges, insert_component, replace_component, delete_component, two_writes,
  delete_write,
}
use jsonot.Transform.Converge.Objects.{
  at_key, insert_over_insert, delete_over_delete, replace_over_replace, replace_over_delete,
  delete_over_replace,
}

module _ (V : Values) where
  open V use {Value}

  -- A replacement by an equal value counts as a no-op.
  abbrev pub Changes : Operator Value → Type 0
  Changes (object_replace new old) = V.equals new old ≡ false
  Changes _ = Unit {0}

  -- A left deletion against a right replacement: the pair that does not converge.
  abbrev pub IsDeleteReplace : Operator Value → Operator Value → Type 0
  IsDeleteReplace (object_delete x) (object_replace y z) = Unit {0}
  IsDeleteReplace _ _ = ⊥

module _ (V : Values) (laws : ValueLaws V) (C : Clients V) (k : Bytes) where
  open V use {Value}

  inserts_converge :
      (v x y : Value)
      → V.type_of v ≡ ValueType.object
      → Converges V laws C k (object_insert x) (object_insert y) v
  unfolding apply_components validation clone_component
  inserts_converge v x y t =
      let (e, e') = insert_over_insert V C k x y in
      let (a, p) = laws.objects.set_key_some v y k t in
      let a_type = laws.objects.set_key_type v y a k p in
      let (w, q) = laws.objects.set_key_some a x k a_type in
      let (u, r) = laws.objects.set_key_some v x k t in
      (
        at_key k (object_replace x y) ∷ [],
        [],
        transform-at_key V laws C k (object_insert x) (object_insert y) _ _ _ _ refl refl refl refl
            e e' refl refl,
        w,
        u,
        rw (insert_component V laws C k v a y t p, replace_component V laws C k a w x y a_type q),
        rw (insert_component V laws C k v u x t r),
        two_writes V laws C k v w u a x y p q r,
      )

  deletes_converge :
      (v x y : Value)
      → V.type_of v ≡ ValueType.object
      → V.get_key v k ≡ some x
      → Converges V laws C k (object_delete x) (object_delete y) v
  unfolding apply_components validation clone_component
  deletes_converge v x y t held =
      let (w, d) = laws.objects.delete_key_some v k t in
      (
        [],
        [],
        transform-at_key V laws C k (object_delete x) (object_delete y) _ _ _ _ refl refl refl refl
            (delete_over_delete V C k x y left) (delete_over_delete V C k y x right) refl refl,
        w,
        w,
        rw (delete_component V laws C k v w y x t held d),
        rw (delete_component V laws C k v w x x t held d),
        λ j. refl,
      )

  replaces_converge :
      (v x y a b : Value)
      → V.type_of v ≡ ValueType.object
      → V.equals x a ≡ false
      → V.equals y b ≡ false
      → Converges V laws C k (object_replace x a) (object_replace y b) v
  unfolding apply_components validation clone_component
  replaces_converge v x y c d t h g =
      let (e, e') = replace_over_replace V C k x y c d h g in
      let (a, p) = laws.objects.set_key_some v y k t in
      let a_type = laws.objects.set_key_type v y a k p in
      let (w, q) = laws.objects.set_key_some a x k a_type in
      let (u, r) = laws.objects.set_key_some v x k t in
      (
        at_key k (object_replace x y) ∷ [],
        [],
        transform-at_key V laws C k (object_replace x c) (object_replace y d) _ _ _ _ refl refl refl
            refl e e' refl refl,
        w,
        u,
        rw (
          replace_component V laws C k v a y d t p,
          replace_component V laws C k a w x y a_type q,
        ),
        rw (replace_component V laws C k v u x c t r),
        two_writes V laws C k v w u a x y p q r,
      )

  replace_delete_converge :
      (v x a b y : Value)
      → V.type_of v ≡ ValueType.object
      → V.equals x a ≡ false
      → V.get_key v k ≡ some y
      → Converges V laws C k (object_replace x a) (object_delete b) v
  unfolding apply_components validation clone_component
  replace_delete_converge v x c b y t h held =
      let (e, e') = replace_over_delete V C k x c b h in
      let (a, p) = laws.objects.delete_key_some v k t in
      let a_type = laws.objects.delete_key_type v a k t p in
      let (w, q) = laws.objects.set_key_some a x k a_type in
      let (u, r) = laws.objects.set_key_some v x k t in
      (
        at_key k (object_insert x) ∷ [],
        [],
        transform-at_key V laws C k (object_replace x c) (object_delete b) _ _ _ _ refl refl refl
            refl e e' refl refl,
        w,
        u,
        rw (
          delete_component V laws C k v a b y t held p,
          insert_component V laws C k a w x a_type q,
        ),
        rw (replace_component V laws C k v u x c t r),
        delete_write V laws C k v w u a x t p q r,
      )

  -- Two operators that fit one key of an object, and are no replacement by an equal value, lead to
  -- objects with the same keys and values in either order, unless the left one deletes what the
  -- right one replaces.
  pub object-Converges :
      (v : Value) (o p : Operator Value)
      → V.type_of v ≡ ValueType.object
      → FitsObject V laws C o v k
      → FitsObject V laws C p v k
      → Changes V o
      → Changes V p
      → ¬ (IsDeleteReplace V o p)
      → Converges V laws C k o p v
  object-Converges v (object_insert x) (object_insert y) t f g c d n = inserts_converge v x y t
  object-Converges v (object_insert x) (object_delete y) t f g c d n = absurd (cc)
  object-Converges v (object_insert x) (object_replace y b) t f g c d n = absurd (cc)
  object-Converges v (object_delete x) (object_insert y) t f g c d n = absurd (cc)
  object-Converges v (object_delete x) (object_delete y) t f g c d n = deletes_converge v x y t f
  object-Converges v (object_delete x) (object_replace y b) t f g c d n = absurd (n tt)
  object-Converges v (object_replace x a) (object_insert y) t f g c d n = absurd (cc)
  object-Converges v (object_replace x a) (object_delete y) t f g c d n =
      replace_delete_converge v x a y a t c f
  object-Converges v (object_replace x a) (object_replace y b) t f g c d n =
      replaces_converge v x y a b t c d
  object-Converges v (object_insert x) _ t f g c d n = absurd g
  object-Converges v (object_delete x) _ t f g c d n = absurd g
  object-Converges v (object_replace x a) _ t f g c d n = absurd g
  object-Converges v _ p t f g c d n = absurd f

  -- A left deletion and a right replacement of one key, by a value that is not equal, are both
  -- transformed to nothing: after the replacement the key is there, after the deletion it is not.
  pub delete_replace_diverges :
      (v x b : Value)
      → V.type_of v ≡ ValueType.object
      → V.get_key v k ≡ some b
      → V.equals x b ≡ false
      → (w u : Value) × (transform V C
            (at_key k (object_delete b) ∷ [])
            (at_key k (object_replace x b) ∷ [])
          ≡ ok (record { left_op = []; right_op = some [] }))
        × (apply_components V C v (at_key k (object_replace x b) ∷ []) ≡ ok w)
        × (apply_components V C v (at_key k (object_delete b) ∷ []) ≡ ok u)
        × (V.get_key w k ≡ some x)
        × (V.get_key u k ≡ none)
  unfolding apply_components validation clone_component
  delete_replace_diverges v x b t held h =
      let (e, e') = delete_over_replace V C k x b b h in
      let (w, p) = laws.objects.set_key_some v x k t in
      let (u, d) = laws.objects.delete_key_some v k t in
      (
        w,
        u,
        transform-at_key V laws C k (object_delete b) (object_replace x b) _ _ _ _ refl refl refl
            refl e e' refl refl,
        rw (replace_component V laws C k v w x b t p),
        rw (delete_component V laws C k v u b b t held d),
        rw (laws.objects.get_key-set_key v x w k k p, str_eq_refl k),
        rw (laws.objects.get_key-delete_key v u k k t d, str_eq_refl k),
      )
