-- ===== src/Base/Lists.antt =====
-- Lists measured and indexed by native numbers, under the library's names, with the two functions
-- of Go's `slices` package that the code calls.
use Prim.Native.Nat.{ℕ, zero, suc, ◌+◌, ◌-◌, ◌<◌, min}
use mathlib.Core.Path.{◌≡◌, refl, ap}
use mathlib.Core.Bool.{Bool, true, false}
use mathlib.Core.List.{List, [], ◌∷◌, ◌++◌}
use mathlib.Core.Option.{Option, none, some}
use native.Mathlib.Omega.{arith}

module _ {ℓ} {A : Type ℓ} where
  abbrev pub length : List A → ℕ
  length [] = 0
  length (x ∷ xs) = suc (length xs)

  abbrev pub get_elem? : List A → ℕ → Option A
  get_elem? [] i = none
  get_elem? (x ∷ xs) zero = some x
  get_elem? (x ∷ xs) (suc i) = get_elem? xs i

  -- A write out of bounds changes nothing.
  abbrev pub set : List A → ℕ → A → List A
  set [] i v = []
  set (x ∷ xs) zero v = v ∷ xs
  set (x ∷ xs) (suc i) v = x ∷ set xs i v

  abbrev pub take : ℕ → List A → List A
  take zero xs = []
  take (suc n) [] = []
  take (suc n) (x ∷ xs) = x ∷ take n xs

  abbrev pub drop : ℕ → List A → List A
  drop zero xs = xs
  drop (suc n) [] = []
  drop (suc n) (x ∷ xs) = drop n xs

  abbrev pub is_nil : List A → Bool
  is_nil [] = true
  is_nil (x ∷ xs) = false

  -- `slices.Insert` of one element, at an index within `0 .. len`.
  abbrev pub insert_at : List A → ℕ → A → List A
  insert_at xs zero y = y ∷ xs
  insert_at [] (suc i) y = y ∷ []
  insert_at (x ∷ xs) (suc i) y = x ∷ insert_at xs i y

  -- `slices.Delete` of one element, at an index below `len`.
  abbrev pub delete_at : List A → ℕ → List A
  delete_at [] i = []
  delete_at (x ∷ xs) zero = xs
  delete_at (x ∷ xs) (suc i) = x ∷ delete_at xs i

  pub append_empty : (xs : List A) → xs ≡ xs ++ []
  append_empty [] = refl
  append_empty (x ∷ xs) = ap (x ∷◌) (append_empty xs)

  pub append_assoc : (xs ys zs : List A) → (xs ++ ys) ++ zs ≡ xs ++ (ys ++ zs)
  append_assoc [] ys zs = refl
  append_assoc (x ∷ xs) ys zs = ap (x ∷◌) (append_assoc xs ys zs)

  pub length-append : (xs ys : List A) → length (xs ++ ys) ≡ length xs + length ys
  length-append [] ys = omega arith
  length-append (x ∷ xs) ys = omega (arith, length-append xs ys)

  pub take-append-drop : (n : ℕ) (xs : List A) → take n xs ++ drop n xs ≡ xs
  take-append-drop zero xs = refl
  take-append-drop (suc n) [] = refl
  take-append-drop (suc n) (x ∷ xs) = rw (take-append-drop n xs)

  pub length-take : (n : ℕ) (xs : List A) → length (take n xs) ≡ min n (length xs)
  length-take zero xs = omega arith
  length-take (suc n) [] = omega arith
  length-take (suc n) (x ∷ xs) = omega (arith, length-take n xs)

  pub length-drop : (n : ℕ) (xs : List A) → length (drop n xs) ≡ length xs - n
  length-drop zero xs = omega arith
  length-drop (suc n) [] = omega arith
  length-drop (suc n) (x ∷ xs) = omega (arith, length-drop n xs)

  pub length-set : (xs : List A) (i : ℕ) (v : A) → length (set xs i v) ≡ length xs
  length-set [] i v = refl
  length-set (x ∷ xs) zero v = refl
  length-set (x ∷ xs) (suc i) v = ap suc (length-set xs i v)

  pub get_elem?-set_self :
      (xs : List A) (i : ℕ) (v : A) → i < length xs → get_elem? (set xs i v) i ≡ some v
  get_elem?-set_self [] i v h = absurd (omega arith)
  get_elem?-set_self (x ∷ xs) zero v h = refl
  get_elem?-set_self (x ∷ xs) (suc i) v h = get_elem?-set_self xs i v (omega arith)

  pub length-insert_at : (xs : List A) (i : ℕ) (y : A) → length (insert_at xs i y) ≡ suc (length xs)
  length-insert_at xs zero y = refl
  length-insert_at [] (suc i) y = refl
  length-insert_at (x ∷ xs) (suc i) y = ap suc (length-insert_at xs i y)

  pub length-delete_at :
      (xs : List A) (i : ℕ) → i < length xs → suc (length (delete_at xs i)) ≡ length xs
  length-delete_at [] i h = absurd (omega arith)
  length-delete_at (x ∷ xs) zero h = refl
  length-delete_at (x ∷ xs) (suc i) h = ap suc (length-delete_at xs i (omega arith))

  pub lt-length_of_get_elem? :
      (xs : List A) (i : ℕ) {x : A} → get_elem? xs i ≡ some x → i < length xs
  lt-length_of_get_elem? [] i h = cc
  lt-length_of_get_elem? (_ ∷ xs) zero h = omega arith
  lt-length_of_get_elem? (_ ∷ xs) (suc i) h = omega (arith, lt-length_of_get_elem? xs i h)

  pub delete_at-insert_at :
      (xs : List A) (i : ℕ) (y : A) → i < suc (length xs) → delete_at (insert_at xs i y) i ≡ xs
  delete_at-insert_at xs zero y h = refl
  delete_at-insert_at [] (suc i) y h = absurd (omega arith)
  delete_at-insert_at (x ∷ xs) (suc i) y h = ap (x ∷◌) (delete_at-insert_at xs i y (omega arith))

  pub insert_at-delete_at :
      (xs : List A) (i : ℕ) {y : A} → get_elem? xs i ≡ some y → insert_at (delete_at xs i) i y ≡ xs
  insert_at-delete_at [] i h = absurd (cc)
  insert_at-delete_at (x ∷ xs) zero h = cc
  insert_at-delete_at (x ∷ xs) (suc i) h = ap (x ∷◌) (insert_at-delete_at xs i h)

  pub get_elem?-insert_at_self :
      (xs : List A) (i : ℕ) (y : A) → i < suc (length xs) → get_elem? (insert_at xs i y) i ≡ some y
  get_elem?-insert_at_self xs zero y h = refl
  get_elem?-insert_at_self [] (suc i) y h = absurd (omega arith)
  get_elem?-insert_at_self (x ∷ xs) (suc i) y h = get_elem?-insert_at_self xs i y (omega arith)

  pub set-set : (xs : List A) (i : ℕ) (y z : A) → set (set xs i y) i z ≡ set xs i z
  set-set [] i y z = refl
  set-set (x ∷ xs) zero y z = refl
  set-set (x ∷ xs) (suc i) y z = ap (x ∷◌) (set-set xs i y z)

  pub set_self : (xs : List A) (i : ℕ) {y : A} → get_elem? xs i ≡ some y → set xs i y ≡ xs
  set_self [] i h = refl
  set_self (x ∷ xs) zero h = cc
  set_self (x ∷ xs) (suc i) h = ap (x ∷◌) (set_self xs i h)
