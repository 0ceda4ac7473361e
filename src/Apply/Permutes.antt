-- ===== src/Apply/Permutes.antt =====
-- apply.go: a move keeps the elements of its array.
use jsonot.Base.{
  ℕ, suc, zero, ◌≡◌, some, List, [], ◌∷◌, ◌++◌, ltb, length, get_elem?, insert_at, delete_at, pos,
  eq_ℤ, ok, Bool-cases, Option-cases, inl, inr,
}
use mathlib.Core.List.{Perm}
use mathlib.Core.List.Perm
use jsonot.Value.{Values}
use jsonot.Apply.Arrays.{apply_list_move, move_to}

Perm-insert_at : {A : Type 0} (xs : List A) (j : ℕ) (v : A) → Perm (insert_at xs j v) (v ∷ xs)
Perm-insert_at xs zero v = Perm.refl _
Perm-insert_at [] (suc j) v = Perm.refl _
Perm-insert_at (x ∷ xs) (suc j) v =
    Perm.trans (Perm.cons x (Perm-insert_at xs j v)) (Perm.swap v x xs)

Perm-append : {A : Type 0} (xs : List A) (v : A) → Perm (xs ++ v ∷ []) (v ∷ xs)
Perm-append [] v = Perm.refl _
Perm-append (x ∷ xs) v = Perm.trans (Perm.cons x (Perm-append xs v)) (Perm.swap v x xs)

Perm-delete_at :
    {A : Type 0} (xs : List A) (i : ℕ) (v : A)
    → get_elem? xs i ≡ some v
    → Perm (v ∷ delete_at xs i) xs
Perm-delete_at [] i v h = absurd (cc)
Perm-delete_at (x ∷ xs) zero v h = let e : x ≡ v = cc in rw (← e) (Perm.refl _)
Perm-delete_at (x ∷ xs) (suc i) v h =
    Perm.trans (Perm.swap x v (delete_at xs i)) (Perm.cons x (Perm-delete_at xs i v h))

module _ (V : Values) where
  open V use {Value}

  move_to-Perm :
      (arr : List Value) (v : Value) (j : ℕ)
      → (ys : List Value) × (move_to V arr v (pos j) ≡ ok ys) × Perm ys (v ∷ arr)
  unfolding move_to
  move_to-Perm arr v j = elim (Bool-cases (ltb (length arr) j)) [
    | inl past ↦ (arr ++ v ∷ [], rw past, Perm-append arr v)
    | inr inside ↦ (insert_at arr j v, rw inside, Perm-insert_at arr j v)
  ]

  -- A move to an index that is not negative succeeds, and its result is a permutation of the
  -- array.
  pub apply_list_move-Perm :
      (arr : List Value) (j i : ℕ)
      → (ys : List Value) × (apply_list_move V arr (pos j) i ≡ ok ys) × Perm ys arr
  unfolding apply_list_move
  apply_list_move-Perm arr j i = elim (Bool-cases (ltb 0 i)) [
    | inr first ↦ (arr, rw (apply_list_move, first), Perm.refl _)
    | inl behind ↦ elim (Option-cases (get_elem? arr i)) [
      | inl out ↦ (arr, rw (apply_list_move, behind, out), Perm.refl _)
      | inr (v, held) ↦ elim (Bool-cases (eq_ℤ (pos i) (pos j))) [
        | inl same ↦ (arr, rw (apply_list_move, behind, held, same), Perm.refl _)
        | inr other ↦
            let (ys, moved, perm) = move_to-Perm (delete_at arr i) v j in
            (
              ys,
              rw (apply_list_move, behind, held, other) moved,
              Perm.trans perm (Perm-delete_at arr i v held),
            )
      ]
    ]
  ]
