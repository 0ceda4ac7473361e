-- ===== src/Transform/Converge/Documents.antt =====
-- Convergence on documents: `Transform` (transform.go) of two concurrent edits of an array, and the
-- two orders in which a client and the server apply them (jsonot.go, apply.go).
use jsonot.Base.{
  ℕ, ◌+◌, ◌<◌, ◌≡◌, refl, some, List, [], ◌∷◌, map, arith, length, lt-length_of_get_elem?,
  int_bound, ok,
}
use jsonot.Value.{Values, ValueType}
use jsonot.Value.Laws.{ValueLaws}
use jsonot.SubType.Interface.{Clients, TransformSide, left, right}
use jsonot.Component.{Component, clone_component, validation}
use jsonot.Apply.{apply_here, apply_to_value}
use jsonot.Engine.{apply_component, apply_components}
use jsonot.Transform.{transform_component}
use jsonot.Transform.Moves.{Outcome}
use jsonot.Transform.Matrix.{transform}
use jsonot.Transform.Converge.{
  insert_over_insert, insert_over_delete, delete_over_insert, delete_over_delete,
}
use jsonot.Transform.Converge.Arrays.{Edit, inserting, deleting, component, edit, Fits, apply-edit}
use jsonot.Transform.Converge.Edits.{moved, run_edits, AllFit, moved-AllFit, edits_converge}

module _ (V : Values) (C : Clients V) where
  open V use {Value}

  abbrev place : Edit V → ℕ
  place (inserting i x) = i
  place (deleting i x) = i

  place-bound :
      (e : Edit V) (xs : List Value)
      → Fits V e xs
      → length xs + 1 < int_bound
      → place e + 1 < int_bound
  place-bound (inserting i x) xs h k = omega arith
  place-bound (deleting i x) xs h k = omega (arith, lt-length_of_get_elem? xs i h)

  clone-component : (e : Edit V) → clone_component (component V e) ≡ component V e
  unfolding clone_component
  clone-component (inserting i x) = refl
  clone-component (deleting i x) = refl

  validation-component : (e : Edit V) → validation (component V e) ≡ ok tt
  unfolding validation
  validation-component (inserting i x) = refl
  validation-component (deleting i x) = refl

  -- `TransformComponent` of two edits returns the edits of the specification.
  transform-moved :
      (e f : Edit V) (side : TransformSide)
      → place e + 1 < int_bound
      → (o : Outcome Value) × (transform_component V C (component V e) (component V f) side ≡ ok o)
        × (o.components ≡ ok (map (component V) (moved V e f side)))
  transform-moved (inserting i x) (inserting j y) side h =
      (_, insert_over_insert V C x y i j side h, refl)
  transform-moved (inserting i x) (deleting j y) side h =
      (_, insert_over_delete V C x y i j side h, refl)
  transform-moved (deleting i x) (inserting j y) side h =
      (_, delete_over_insert V C x y i j side h, refl)
  transform-moved (deleting i x) (deleting j y) side h =
      (_, delete_over_delete V C x y i j side h, ground arith)

module _ (V : Values) (laws : ValueLaws V) (C : Clients V) where
  open V use {Value}

  apply_component-edit :
      (v w : Value) (xs : List Value) (a : Edit V)
      → V.type_of v ≡ ValueType.array
      → V.get_array v ≡ some xs
      → Fits V a xs
      → V.update_array v (edit V a xs) ≡ some w
      → apply_component V C v (component V a) ≡ ok w
  unfolding apply_component apply_to_value apply_here
  apply_component-edit v w xs (inserting i x) t e h put =
      rw (t, e, apply-edit V laws.equality xs (inserting i x) h, put)
  apply_component-edit v w xs (deleting i x) t e h put =
      rw (t, e, apply-edit V laws.equality xs (deleting i x) h, put)

  -- Fitting edits, applied to a document that is an array.
  apply-edits :
      (v : Value) (xs : List Value) (es : List (Edit V))
      → V.type_of v ≡ ValueType.array
      → V.get_array v ≡ some xs
      → AllFit V es xs
      → (w : Value) × (apply_components V C v (map (component V) es) ≡ ok w)
        × (V.get_array w ≡ some (run_edits V xs es))
  unfolding apply_components
  apply-edits v xs [] t e h = (v, refl, e)
  apply-edits v xs (a ∷ es) t e h =
      let (w, put) = laws.arrays.update_array_some v (edit V a xs) t in
      let (u, rest, got) =
        apply-edits w (edit V a xs) es (laws.arrays.update_array_type v w (edit V a xs) put)
          (laws.arrays.get_array-update_array v w (edit V a xs) put) h.1 in
      (u, rw (apply_component-edit v w xs a t e h.0 put) rest, got)

  -- The operations of one edit each, transformed.
  transform-edits :
      (e f : Edit V)
      → place V C e + 1 < int_bound
      → place V C f + 1 < int_bound
      → transform V C (component V e ∷ []) (component V f ∷ [])
        ≡ ok (record {
          left_op = map (component V) (moved V e f left);
          right_op = some (map (component V) (moved V f e right));
        })
  unfolding transform
  transform-edits e f h k =
      let (o, called, out) = transform-moved V C e f left h in
      let (o', called', out') = transform-moved V C f e right k in
      rw (validation-component V C e, validation-component V C f, clone-component V C e)
        (rw (clone-component V C f, called, called', out, out'))

-- Two clients insert into, or delete from, one array of fewer than 2^63 - 1 elements at once, each
-- at a place that exists, a deletion naming what stands there; `Transform` of the two operations
-- succeeds, and the array is the same whichever of them is applied first, with the other one's
-- transform behind it.
pub transform_converges :
    (V : Values) (laws : ValueLaws V) (C : Clients V) (e f : Edit V) (v : V.Value)
    (xs : List V.Value)
    → V.type_of v ≡ ValueType.array
    → V.get_array v ≡ some xs
    → Fits V e xs
    → Fits V f xs
    → length xs + 1 < int_bound
    → (ls rs : List (Component V.Value)) × (transform V C (component V e ∷ []) (component V f ∷ [])
        ≡ ok (record { left_op = ls; right_op = some rs }))
      × (w u : V.Value) × (apply_components V C v (component V f ∷ ls) ≡ ok w)
      × (apply_components V C v (component V e ∷ rs) ≡ ok u)
      × (zs : List V.Value) × (V.get_array w ≡ some zs)
      × (V.get_array u ≡ some zs)
transform_converges V laws C e f v xs t got he hf bound =
    let (w, run, out) =
      apply-edits V laws C v xs (f ∷ moved V e f left) t got
        (hf, moved-AllFit V e f left xs he hf) in
    let (u, run', out') =
      apply-edits V laws C v xs (e ∷ moved V f e right) t got
        (he, moved-AllFit V f e right xs hf he) in
    (
      map (component V) (moved V e f left),
      map (component V) (moved V f e right),
      transform-edits V laws C e f (place-bound V C e xs he bound) (place-bound V C f xs hf bound),
      w,
      u,
      run,
      run',
      run_edits V (edit V f xs) (moved V e f left),
      out,
      rw (edits_converge V e f xs he hf) out',
    )
