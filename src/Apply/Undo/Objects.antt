-- ===== src/Apply/Undo/Objects.antt =====
-- apply.go and operation.go: undoing an object component on an object.
use jsonot.Base.{
  ◌≡◌, refl, ap, none, some, [], ◌∷◌, arith, Bytes, str_eq_refl, str_eq_iff, ok, foreign,
}
use jsonot.Value.{Values, ValueType}
use jsonot.Value.Laws.{ValueLaws}
use jsonot.Operator.{Operator, object_insert, object_delete, object_replace}
use jsonot.Path.{element_from_key}
use jsonot.SubType.Interface.{Clients}
use jsonot.Component.{Component, invert}
use jsonot.Apply.{apply_here}

module _ (V : Values) (laws : ValueLaws V) (C : Clients V) where
  open V use {Value}

  -- What an operator needs of the object at its key.
  abbrev pub FitsObject : Operator Value → Value → Bytes → Type 0
  FitsObject (object_insert x) v k = V.get_key v k ≡ none
  FitsObject (object_delete x) v k = V.get_key v k ≡ some x
  FitsObject (object_replace new old) v k = V.get_key v k ≡ some old
  FitsObject _ v k = ⊥

  -- An object that agrees with another at every key.
  abbrev pub SameKeys : Value → Value → Type 0
  SameKeys u v = (j : Bytes) → V.get_key u j ≡ V.get_key v j

  -- Writing at a key that is absent or held `old` is taken back by the deletion or by `old`.
  set-delete_SameKeys :
      (v w u x : Value) (k : Bytes)
      → V.get_key v k ≡ none
      → V.set_key v k x ≡ some w
      → V.delete_key w k ≡ some u
      → SameKeys u v
  set-delete_SameKeys v w u x k absent s d j = ground (
    arith,
    laws.objects.get_key-delete_key w u k j (laws.objects.set_key_type v x w k s) d,
    laws.objects.get_key-set_key v x w k j s,
    str_eq_iff k j,
    ap (V.get_key v),
  )

  delete-set_SameKeys :
      (v w u x : Value) (k : Bytes)
      → V.type_of v ≡ ValueType.object
      → V.get_key v k ≡ some x
      → V.delete_key v k ≡ some w
      → V.set_key w k x ≡ some u
      → SameKeys u v
  delete-set_SameKeys v w u x k t held d s j = ground (
    arith,
    laws.objects.get_key-delete_key v w k j t d,
    laws.objects.get_key-set_key w x u k j s,
    str_eq_iff k j,
  )

  set-set_SameKeys :
      (v w u x y : Value) (k : Bytes)
      → V.get_key v k ≡ some y
      → V.set_key v k x ≡ some w
      → V.set_key w k y ≡ some u
      → SameKeys u v
  set-set_SameKeys v w u x y k held s s' j = ground (
    arith,
    laws.objects.get_key-set_key v x w k j s,
    laws.objects.get_key-set_key w y u k j s',
    str_eq_iff k j,
  )

  updated :
      (a b : Value)
      → V.type_of a ≡ ValueType.object
      → V.type_of b ≡ ValueType.object
      → foreign (V.update_object a b) ≡ ok b
  updated a b p q = ap foreign (laws.objects.update_object_lem a b p q)

  pub insert_here :
      (v w x : Value) (k : Bytes)
      → V.type_of v ≡ ValueType.object
      → V.set_key v k x ≡ some w
      → apply_here V C v (element_from_key k ∷ []) (object_insert x) ≡ ok w
  unfolding apply_here
  insert_here v w x k t s = rw (t, s) (updated v w t (laws.objects.set_key_type v x w k s))

  pub replace_here :
      (v w x y : Value) (k : Bytes)
      → V.type_of v ≡ ValueType.object
      → V.set_key v k x ≡ some w
      → apply_here V C v (element_from_key k ∷ []) (object_replace x y) ≡ ok w
  unfolding apply_here
  replace_here v w x y k t s = rw (t, s) (updated v w t (laws.objects.set_key_type v x w k s))

  pub delete_here :
      (v w x y : Value) (k : Bytes)
      → V.type_of v ≡ ValueType.object
      → V.get_key v k ≡ some y
      → V.delete_key v k ≡ some w
      → apply_here V C v (element_from_key k ∷ []) (object_delete x) ≡ ok w
  unfolding apply_here
  delete_here v w x y k t held d =
      rw (t, held, d) (updated v w t (laws.objects.delete_key_type v w k t d))

  -- Applied to an object, an insertion at an absent key, or a deletion or replacement that names
  -- the value of a key, succeeds; its inverse exists, applies to the result, and gives an object
  -- with the first keys and values.
  pub apply-invert_object :
      (v : Value) (k : Bytes) (op : Operator Value)
      → V.type_of v ≡ ValueType.object
      → FitsObject op v k
      → let c : Component Value = record { operator = op; path = element_from_key k ∷ [] } in
        (w u : Value) × (d : Component Value) × (apply_here V C v c.path c.operator ≡ ok w)
        × (invert V C c ≡ ok (d, c))
        × (apply_here V C w d.path d.operator ≡ ok u)
        × SameKeys u v
  unfolding invert
  apply-invert_object v k (object_insert x) t h =
      let (w, s) = laws.objects.set_key_some v x k t in
      let w_type = laws.objects.set_key_type v x w k s in
      let (u, d) = laws.objects.delete_key_some w k w_type in
      let held : V.get_key w k ≡ some x =
        rw (laws.objects.get_key-set_key v x w k k s, str_eq_refl k) refl in
      (
        w,
        u,
        record { operator = object_delete x; path = element_from_key k ∷ [] },
        insert_here v w x k t s,
        refl,
        delete_here w u x x k w_type held d,
        set-delete_SameKeys v w u x k h s d,
      )
  apply-invert_object v k (object_delete x) t h =
      let (w, d) = laws.objects.delete_key_some v k t in
      let w_type = laws.objects.delete_key_type v w k t d in
      let (u, s) = laws.objects.set_key_some w x k w_type in
      (
        w,
        u,
        record { operator = object_insert x; path = element_from_key k ∷ [] },
        delete_here v w x x k t h d,
        refl,
        insert_here w u x k w_type s,
        delete-set_SameKeys v w u x k t h d s,
      )
  apply-invert_object v k (object_replace x y) t h =
      let (w, s) = laws.objects.set_key_some v x k t in
      let w_type = laws.objects.set_key_type v x w k s in
      let (u, s') = laws.objects.set_key_some w y k w_type in
      (
        w,
        u,
        record { operator = object_replace y x; path = element_from_key k ∷ [] },
        replace_here v w x y k t s,
        refl,
        replace_here w u y x k w_type s',
        set-set_SameKeys v w u x y k h s s',
      )
  apply-invert_object v k _ t h = absurd h
