-- ===== src/Transform/Converge/Edits.antt =====
-- The transformed edits as a specification on lists: two concurrent edits of one list commute.
use jsonot.Base.{
  ℕ, zero, suc, ◌+◌, ◌-◌, ◌≤◌, ◌≡◌, refl, sym, inl, inr, true, false, ◌&&◌, ◌||◌, List, [], ◌∷◌,
  arith, ltb, leb, ◌==◌, if◌then◌else◌, ltb→lt, Bool-cases, length, insert_at, length-insert_at,
  length-delete_at, lt-length_of_get_elem?, insert_at-insert_at, insert_at-delete_at_lt,
  insert_at-delete_at_le, delete_at-delete_at, get_elem?-insert_at_lt, get_elem?-insert_at_le,
  get_elem?-delete_at_lt, get_elem?-delete_at_le,
}
use jsonot.Value.{Values}
use native.Mathlib.Numerals.{add-one}
use jsonot.SubType.Interface.{TransformSide, left, right, is_right}
use jsonot.Transform.Converge.Arrays.{Edit, inserting, deleting, edit, Fits}

module _ (V : Values) where
  open V use {Value}

  -- What an edit becomes over a concurrent one.
  abbrev pub moved : Edit V → Edit V → TransformSide → List (Edit V)
  moved (inserting i x) (inserting j y) side =
      inserting (if ltb j i || (j == i && is_right side) then i + 1 else i) x ∷ []
  moved (inserting i x) (deleting j y) side = inserting (if ltb j i then i - 1 else i) x ∷ []
  moved (deleting i x) (inserting j y) side = deleting (if leb j i then i + 1 else i) x ∷ []
  moved (deleting i x) (deleting j y) side =
      if j == i then [] else deleting (if ltb j i then i - 1 else i) x ∷ []

  abbrev pub run_edits : List Value → List (Edit V) → List Value
  run_edits xs [] = xs
  run_edits xs (e ∷ es) = run_edits (edit V e xs) es

  abbrev pub AllFit : List (Edit V) → List Value → Type 0
  AllFit [] xs = Unit {0}
  AllFit (e ∷ es) xs = Fits V e xs × AllFit es (edit V e xs)

  pub moved-AllFit :
      (e f : Edit V) (side : TransformSide) (xs : List Value)
      → Fits V e xs
      → Fits V f xs
      → AllFit (moved e f side) (edit V f xs)
  moved-AllFit (inserting i x) (inserting j y) side xs h k = ground (arith, length-insert_at xs j y)
  moved-AllFit (inserting i x) (deleting j y) side xs h k =
      ground (arith, length-delete_at xs j, lt-length_of_get_elem? xs j k)
  moved-AllFit (deleting i x) (inserting j y) side xs h k =
      ground (arith, get_elem?-insert_at_lt xs j i y, get_elem?-insert_at_le xs j i y)
  moved-AllFit (deleting (suc i) x) (deleting j y) side xs h k =
      ground (arith, get_elem?-delete_at_lt xs j (suc i), get_elem?-delete_at_le xs j i)
  moved-AllFit (deleting zero x) (deleting j y) side xs h k =
      ground (arith, get_elem?-delete_at_lt xs j zero)

  inserts_converge :
      (i j : ℕ) (x y : Value) (xs : List Value)
      → i ≤ length xs
      → j ≤ length xs
      → run_edits (insert_at xs j y) (moved (inserting i x) (inserting j y) left)
        ≡ run_edits (insert_at xs i x) (moved (inserting j y) (inserting i x) right)
  inserts_converge i j x y xs h k = elim (Bool-cases (ltb i j)) [
    | inl i<j ↦
        let n1 : ltb j i ≡ false = ground arith in
        let n2 : (j == i) ≡ false = ground arith in
        rw (i<j, n1, n2, add-one) (sym (insert_at-insert_at xs j i y x (omega (arith, ltb→lt)) k))
    | inr n ↦ elim (Bool-cases (ltb j i)) [
      | inl j<i ↦
          let n2 : (i == j) ≡ false = ground arith in
          rw (n, j<i, n2, add-one) (insert_at-insert_at xs i j x y (omega (arith, ltb→lt)) h)
      | inr m ↦
          let i=j : i ≡ j = ground arith in
          let e : (j == j) ≡ true = ground arith in
          rw (n, m, i=j, e, add-one) (sym (insert_at-insert_at xs j j y x (omega arith) k))
    ]
  ]

  -- The edits commute: each after the other one, as moved over it.
  pub edits_converge :
      (e f : Edit V) (xs : List Value)
      → Fits V e xs
      → Fits V f xs
      → run_edits (edit V f xs) (moved e f left) ≡ run_edits (edit V e xs) (moved f e right)
  edits_converge (inserting i x) (inserting j y) xs h k = inserts_converge i j x y xs h k
  edits_converge (inserting (suc i) x) (deleting j y) xs h k = ground (
    arith,
    insert_at-delete_at_lt xs i j x,
    insert_at-delete_at_le xs (suc i) j x,
    lt-length_of_get_elem? xs j k,
  )
  edits_converge (inserting zero x) (deleting j y) xs h k =
      ground (arith, insert_at-delete_at_le xs zero j x, lt-length_of_get_elem? xs j k)
  edits_converge (deleting i x) (inserting (suc j) y) xs h k = ground (
    arith,
    insert_at-delete_at_lt xs j i y,
    insert_at-delete_at_le xs (suc j) i y,
    lt-length_of_get_elem? xs i h,
  )
  edits_converge (deleting i x) (inserting zero y) xs h k =
      ground (arith, insert_at-delete_at_le xs zero i y, lt-length_of_get_elem? xs i h)
  edits_converge (deleting zero x) (deleting zero y) xs h k = refl
  edits_converge (deleting (suc i) x) (deleting zero y) xs h k =
      ground (arith, delete_at-delete_at xs i zero, lt-length_of_get_elem? xs (suc i) h)
  edits_converge (deleting zero x) (deleting (suc j) y) xs h k =
      ground (arith, delete_at-delete_at xs j zero, lt-length_of_get_elem? xs (suc j) k)
  edits_converge (deleting (suc i) x) (deleting (suc j) y) xs h k = ground (
    arith,
    delete_at-delete_at xs i (suc j),
    delete_at-delete_at xs j (suc i),
    lt-length_of_get_elem? xs (suc i) h,
    lt-length_of_get_elem? xs (suc j) k,
  )
