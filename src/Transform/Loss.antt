-- ===== src/Transform/Loss.antt =====
-- transform.go: what `TransformMatrix` returns for operations of several components.
use jsonot.Base.{
  suc, ◌≡◌, refl, ap, Bool, true, false, ◌&&◌, ◌||◌, some, [], ◌∷◌, arith, length, pos, ltb_ℤ,
  Bool-cases, inl, inr, ok,
}
use jsonot.Value.{Values}
use jsonot.Path.{PathElement, DocPath, same_element, max_common_path}
use jsonot.Path.Laws.{same_element_iff}
use jsonot.SubType.Interface.{Clients, TransformSide, left, right}
use jsonot.Component.{Component, is_noop_value, not_noop, operate_path_len}
use jsonot.Operation.{Operation}
use jsonot.Transform.{is_equivalent_to_noop, transform_component}
use jsonot.Transform.Moves.{keep}
use jsonot.Transform.Matrix.{multi_rest, multi_loop, transform_multi, matrix_loop, transform_matrix}

same_element_sym : (a b : PathElement) → same_element a b ≡ same_element b a
same_element_sym a b = elim (Bool-cases (same_element a b)) [
  | inl h ↦ let e : a ≡ b = (same_element_iff a b).0 h in rw e refl
  | inr h ↦ elim (Bool-cases (same_element b a)) [
    | inl k ↦ let e : b ≡ a = (same_element_iff b a).0 k in rw e refl
    | inr k ↦ rw (h, k) refl
  ]
]

max_common_path_sym : (p q : DocPath) → length (max_common_path p q) ≡ length (max_common_path q p)
unfolding max_common_path
max_common_path_sym [] [] = refl
max_common_path_sym [] (b ∷ q) = refl
max_common_path_sym (a ∷ p) [] = refl
max_common_path_sym (a ∷ p) (b ∷ q) = elim (Bool-cases (same_element b a)) [
  | inl h ↦ rw (same_element_sym a b) (rw h (ap suc (max_common_path_sym p q)))
  | inr h ↦ rw (same_element_sym a b) (rw h refl)
]

-- The paths of two components part before either operates.
abbrev pub are_apart : {V : Type 0} → Component V → Component V → Bool
are_apart c d =
    ltb_ℤ (pos (length (max_common_path d.path c.path))) (operate_path_len c)
    && ltb_ℤ (pos (length (max_common_path d.path c.path))) (operate_path_len d)

are_apart_sym : {V : Type 0} (c d : Component V) → are_apart c d ≡ true → are_apart d c ≡ true
are_apart_sym c d h = rw (max_common_path_sym c.path d.path) (ground arith)

module _ (V : Values) (C : Clients V) where
  open V use {Value}

  transform_component-apart :
      (new base : Component Value) (side : TransformSide)
      → are_apart new base ≡ true
      → transform_component V C new base side ≡ ok (keep new)
  unfolding transform_component
  transform_component-apart new base side h =
      elim (Bool-cases (is_equivalent_to_noop V new || is_equivalent_to_noop V base)) [
        | inl idle ↦ rw (transform_component, idle) refl
        | inr active ↦ rw (transform_component, active) (rw h refl)
      ]

  multi_apart :
      (op base : Component Value) (ops : Operation Value)
      → is_noop_value base.operator ≡ false
      → are_apart op base ≡ true
      → transform_multi V C (op ∷ ops) base ≡ ok (record { out = []; base_op = base })
  unfolding transform_multi multi_loop multi_rest not_noop
  multi_apart op base ops some_base h =
      let left_kept = transform_component-apart op base left h in
      let right_kept = transform_component-apart base op right (are_apart_sym op base h) in
      rw (transform_multi, some_base) (rw (left_kept) (rw (right_kept) refl))

  multi_empty :
      (base : Component Value)
      → transform_multi V C [] base ≡ ok (record { out = []; base_op = base })
  unfolding transform_multi multi_loop not_noop
  multi_empty base = elim (Bool-cases (is_noop_value base.operator)) [
    | inl h ↦ rw (transform_multi, h) refl
    | inr h ↦ rw (transform_multi, h) refl
  ]

  matrix_empty :
      (bases : Operation Value)
      → matrix_loop V C [] bases ≡ ok (record { out_b = bases; base_ops = bases })
  unfolding matrix_loop
  matrix_empty [] = refl
  matrix_empty (base ∷ bases) = rw (multi_empty base) (rw (matrix_empty bases) refl)

  -- Where the first components of two operations are at paths that part before either operates,
  -- and the first one of the base operation is not the struct `Noop{}`, `TransformMatrix` returns
  -- the base operation as both of its results, whatever else the two operations do: nothing is
  -- left of the new operation.
  pub transform_matrix_loses :
      (op base : Component Value) (ops bases : Operation Value)
      → is_noop_value base.operator ≡ false
      → are_apart op base ≡ true
      → transform_matrix V C (op ∷ ops) (base ∷ bases)
        ≡ ok (record { left_op = base ∷ bases; right_op = some (base ∷ bases) })
  unfolding transform_matrix matrix_loop
  transform_matrix_loses op base ops bases some_base h =
      rw (multi_apart op base ops some_base h) (rw (matrix_empty bases) refl)
