-- ===== src/Component/Inverse.antt =====
-- operation.go, `OperationComponent.Invert`: a component and its inverse.
use jsonot.Base.{
  ℕ, zero, suc, ◌+◌, ◌<◌, ◌≡◌, refl, ap, ◌∙◌, true, false, some, List, [], ◌∷◌, ◌++◌, arith, length,
  get_elem?, set, length-append, pos, eq_ℤ, int_bound, sub_int, sub_int-pos, ok,
}
use jsonot.Value.{Values}
use jsonot.Operator.{
  Operator, noop, list_insert, list_delete, list_replace, list_move, object_insert, object_delete,
  object_replace,
}
use jsonot.Path.{DocPath, element_from_index, replace}
use jsonot.SubType.Interface.{Clients}
use jsonot.Component.{Component, invert, merge}
use jsonot.Value.Laws.{EqualsLaw}
use jsonot.Transform.{is_equivalent_to_noop}

-- The operators on values: all but moves, sub types and the struct `Noop{}`.
abbrev pub IsPlain : {V : Type 0} → Operator V → Type 0
IsPlain noop = Unit {0}
IsPlain (list_insert v) = Unit {0}
IsPlain (list_delete v) = Unit {0}
IsPlain (list_replace v w) = Unit {0}
IsPlain (object_insert v) = Unit {0}
IsPlain (object_delete v) = Unit {0}
IsPlain (object_replace v w) = Unit {0}
IsPlain _ = ⊥

-- The operators that merge with their inverses: those on values but the deletion from an array.
abbrev pub IsMerged : {V : Type 0} → Operator V → Type 0
IsMerged (list_delete v) = ⊥
IsMerged op = IsPlain op

set-append : {A : Type 0} (xs : List A) (a b : A) → set (xs ++ a ∷ []) (length xs) b ≡ xs ++ b ∷ []
set-append [] a b = refl
set-append (x ∷ xs) a b = ap (x ∷◌) (set-append xs a b)

get_elem?-append :
    {A : Type 0} (xs : List A) (a : A) → get_elem? (xs ++ a ∷ []) (length xs) ≡ some a
get_elem?-append [] a = refl
get_elem?-append (x ∷ xs) a = get_elem?-append xs a

module _ (V : Values) (C : Clients V) where
  open V use {Value}

  merge-invert_at :
      (same : EqualsLaw V) (p : DocPath) (op : Operator Value)
      → IsMerged op
      → (d : Component Value) × (e : Component Value) × (invert V C
            (record { operator = op; path = p })
          ≡ ok (d, record { operator = op; path = p }))
        × (merge V C (record { operator = op; path = p }) d ≡ ok (some e))
        × (is_equivalent_to_noop V e ≡ true)
        × (e.path ≡ p)
  unfolding invert merge is_equivalent_to_noop
  merge-invert_at same p noop h = (
    record { operator = noop; path = p },
    record { operator = noop; path = p },
    refl,
    refl,
    refl,
    refl,
  )
  merge-invert_at same p (list_insert v) h = (
    record { operator = list_delete v; path = p },
    record { operator = noop; path = p },
    refl,
    rw (same v) refl,
    refl,
    refl,
  )
  merge-invert_at same p (list_replace v w) h = (
    record { operator = list_replace w v; path = p },
    record { operator = list_replace w w; path = p },
    refl,
    rw (same v) refl,
    same w,
    refl,
  )
  merge-invert_at same p (object_insert v) h = (
    record { operator = object_delete v; path = p },
    record { operator = noop; path = p },
    refl,
    rw (same v) refl,
    refl,
    refl,
  )
  merge-invert_at same p (object_delete v) h = (
    record { operator = object_insert v; path = p },
    record { operator = object_replace v v; path = p },
    refl,
    refl,
    same v,
    refl,
  )
  merge-invert_at same p (object_replace v w) h = (
    record { operator = object_replace w v; path = p },
    record { operator = object_replace w w; path = p },
    refl,
    rw (same v) refl,
    same w,
    refl,
  )
  merge-invert_at same p _ h = absurd h

  -- A component with an operator on values other than a deletion from an array has an inverse, is
  -- left as it was, and merges with its inverse into a component at its path that is equivalent to
  -- doing nothing.
  pub merge-invert :
      (same : EqualsLaw V) (c : Component Value)
      → IsMerged c.operator
      → (d : Component Value) × (e : Component Value) × (invert V C c ≡ ok (d, c))
        × (merge V C c d ≡ ok (some e))
        × (is_equivalent_to_noop V e ≡ true)
        × (e.path ≡ c.path)
  merge-invert same c h = merge-invert_at same c.path c.operator h

  -- The inverse of a move from an index `i` above 0 to `j` moves from `j` to `i`, and the call
  -- leaves its receiver as a move from `j` to `j`; the path's length fits an `int`.
  pub invert-list_move :
      (p : DocPath) (i j : ℕ)
      → 0 < i
      → length p + 1 < int_bound
      → invert V C
          (record { operator = list_move (pos j); path = p ++ element_from_index (pos i) ∷ [] })
        ≡ ok (
          record { operator = list_move (pos i); path = p ++ element_from_index (pos j) ∷ [] },
          record { operator = list_move (pos j); path = p ++ element_from_index (pos j) ∷ [] },
        )
  unfolding invert replace
  invert-list_move p (suc i) j h bound =
      let n : length (p ++ element_from_index (pos (suc i)) ∷ []) ≡ length p + 1 =
        length-append p (element_from_index (pos (suc i)) ∷ []) in
      let m : sub_int (pos (length p + 1)) (pos 1) ≡ pos (length p) =
        sub_int-pos (length p + 1) 1 (omega arith) bound ∙ ap pos (omega arith) in
      let z : eq_ℤ (pos (suc i)) (pos 0) ≡ false = ground arith in
      rw (n, m, get_elem?-append p (element_from_index (pos (suc i))))
        (rw (set-append p (element_from_index (pos (suc i))) (element_from_index (pos j))) (rw z))
  invert-list_move p zero j h bound = absurd (omega arith)
