-- ===== src/Base/Edits.antt =====
-- Two edits of one list, in either order.
use Prim.Native.Nat.{ℕ, zero, suc, ◌≤◌, ◌<◌}
use mathlib.Core.Path.{◌≡◌, refl, ap}
use mathlib.Core.List.{List, [], ◌∷◌}
use native.Mathlib.Omega.{arith}
use package.jsonot.Base.Lists.{length, get_elem?, insert_at, delete_at}

module _ {ℓ} {A : Type ℓ} where
  pub insert_at-insert_at :
      (xs : List A) (i j : ℕ) (x y : A)
      → j ≤ i
      → i ≤ length xs
      → insert_at (insert_at xs j y) (suc i) x ≡ insert_at (insert_at xs i x) j y
  insert_at-insert_at xs i zero x y h k = refl
  insert_at-insert_at xs zero (suc j) x y h k = absurd (omega arith)
  insert_at-insert_at [] (suc i) (suc j) x y h k = absurd (omega arith)
  insert_at-insert_at (z ∷ zs) (suc i) (suc j) x y h k =
      ap (z ∷◌) (insert_at-insert_at zs i j x y (omega arith) (omega arith))

  pub insert_at-delete_at_lt :
      (xs : List A) (i j : ℕ) (x : A)
      → j < suc i
      → suc i ≤ length xs
      → insert_at (delete_at xs j) i x ≡ delete_at (insert_at xs (suc i) x) j
  insert_at-delete_at_lt [] i j x h k = absurd (omega arith)
  insert_at-delete_at_lt (z ∷ zs) i zero x h k = refl
  insert_at-delete_at_lt (z ∷ zs) zero (suc j) x h k = absurd (omega arith)
  insert_at-delete_at_lt (z ∷ zs) (suc i) (suc j) x h k =
      ap (z ∷◌) (insert_at-delete_at_lt zs i j x (omega arith) (omega arith))

  pub insert_at-delete_at_le :
      (xs : List A) (i j : ℕ) (x : A)
      → i ≤ j
      → j < length xs
      → insert_at (delete_at xs j) i x ≡ delete_at (insert_at xs i x) (suc j)
  insert_at-delete_at_le [] i j x h k = absurd (omega arith)
  insert_at-delete_at_le (z ∷ zs) zero j x h k = refl
  insert_at-delete_at_le (z ∷ zs) (suc i) zero x h k = absurd (omega arith)
  insert_at-delete_at_le (z ∷ zs) (suc i) (suc j) x h k =
      ap (z ∷◌) (insert_at-delete_at_le zs i j x (omega arith) (omega arith))

  pub delete_at-delete_at :
      (xs : List A) (i j : ℕ)
      → j < suc i
      → suc i < length xs
      → delete_at (delete_at xs j) i ≡ delete_at (delete_at xs (suc i)) j
  delete_at-delete_at [] i j h k = refl
  delete_at-delete_at (z ∷ zs) i zero h k = refl
  delete_at-delete_at (z ∷ zs) zero (suc j) h k = absurd (omega arith)
  delete_at-delete_at (z ∷ zs) (suc i) (suc j) h k =
      ap (z ∷◌) (delete_at-delete_at zs i j (omega arith) (omega arith))

  -- What stands before an edit stays, and what stands behind it moves by one.
  pub get_elem?-insert_at_lt :
      (xs : List A) (i j : ℕ) (x : A)
      → j < i
      → i ≤ length xs
      → get_elem? (insert_at xs i x) j ≡ get_elem? xs j
  get_elem?-insert_at_lt xs zero j x h k = absurd (omega arith)
  get_elem?-insert_at_lt [] (suc i) j x h k = absurd (omega arith)
  get_elem?-insert_at_lt (z ∷ zs) (suc i) zero x h k = refl
  get_elem?-insert_at_lt (z ∷ zs) (suc i) (suc j) x h k =
      get_elem?-insert_at_lt zs i j x (omega arith) (omega arith)

  pub get_elem?-insert_at_le :
      (xs : List A) (i j : ℕ) (x : A)
      → i ≤ j
      → get_elem? (insert_at xs i x) (suc j) ≡ get_elem? xs j
  get_elem?-insert_at_le xs zero j x h = refl
  get_elem?-insert_at_le [] (suc i) j x h = refl
  get_elem?-insert_at_le (z ∷ zs) (suc i) zero x h = absurd (omega arith)
  get_elem?-insert_at_le (z ∷ zs) (suc i) (suc j) x h =
      get_elem?-insert_at_le zs i j x (omega arith)

  pub get_elem?-delete_at_lt :
      (xs : List A) (i j : ℕ) → j < i → get_elem? (delete_at xs i) j ≡ get_elem? xs j
  get_elem?-delete_at_lt [] i j h = refl
  get_elem?-delete_at_lt (z ∷ zs) zero j h = absurd (omega arith)
  get_elem?-delete_at_lt (z ∷ zs) (suc i) zero h = refl
  get_elem?-delete_at_lt (z ∷ zs) (suc i) (suc j) h = get_elem?-delete_at_lt zs i j (omega arith)

  pub get_elem?-delete_at_le :
      (xs : List A) (i j : ℕ) → i ≤ j → get_elem? (delete_at xs i) j ≡ get_elem? xs (suc j)
  get_elem?-delete_at_le [] i j h = refl
  get_elem?-delete_at_le (z ∷ zs) zero j h = refl
  get_elem?-delete_at_le (z ∷ zs) (suc i) zero h = absurd (omega arith)
  get_elem?-delete_at_le (z ∷ zs) (suc i) (suc j) h = get_elem?-delete_at_le zs i j (omega arith)
