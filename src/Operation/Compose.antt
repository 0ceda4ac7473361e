-- ===== src/Operation/Compose.antt =====
-- operation.go, `Append` and `Compose`: what a composition keeps, and what it loses.
use jsonot.Base.{
  ℕ, ◌≡◌, refl, inl, inr, Bool, true, Option, none, some, List, [], ◌∷◌, arith, if◌then◌else◌,
  Bool-cases, ok, >>=-eq-ok,
}
use jsonot.Value.{Values}
use jsonot.Operator.{
  SubTypeFunctions, number_add_functions, text_functions, client_functions, Operator, noop,
  noop_value, list_insert, list_delete, list_replace, list_move, object_insert, object_delete,
  object_replace, sub_type_operator, validates,
}
use jsonot.Path.{DocPath, equal}
use jsonot.SubType.{merge_by}
use jsonot.SubType.Number.{number_merge}
use jsonot.SubType.Text.Functions.{text_merge}
use jsonot.SubType.Interface.{Clients}
use jsonot.Component.{Component, merge, merge_operators, validation, supports_root_path, at_path}
use jsonot.Operation.{
  Operation, append, compose, operation_validation, push, join_last, joined, move_stays,
}

-- An operator that is valid at every path, the root included.
abbrev pub IsSound : {V : Type 0} → Operator V → Type 0
IsSound op = (supports_root_path op ≡ true) × (validates op ≡ ok tt)

module _ {V : Type 0} where
  validation-IsSound :
      (p : DocPath) (op : Operator V)
      → IsSound op
      → validation (record { operator = op; path = p }) ≡ ok tt
  unfolding validation
  validation-IsSound p op h = ground arith

module _ {V : Type 0} where
  operation_validation-uncons :
      (c : Component V) (o : Operation V)
      → operation_validation (c ∷ o) ≡ ok tt
      → (validation c ≡ ok tt) × (operation_validation o ≡ ok tt)
  unfolding operation_validation
  operation_validation-uncons c o h =
      let (t, e, f) = >>=-eq-ok (validation c) (λ (u : Unit {0}). operation_validation o) h in
      (cc, f)

  operation_validation-cons :
      (c : Component V) (o : Operation V)
      → validation c ≡ ok tt
      → operation_validation o ≡ ok tt
      → operation_validation (c ∷ o) ≡ ok tt
  unfolding operation_validation
  operation_validation-cons c o h k = rw (h, k)

number_merge-IsSound :
    (V : Values) (v : V.Value) (p m : Operator V.Value)
    → number_merge V v p ≡ ok (some m)
    → IsSound m
unfolding number_merge supports_root_path validates
number_merge-IsSound V v (sub_type_operator t w f) m h = ground arith
number_merge-IsSound V v _ m h = ground arith

text_merge-IsSound :
    (V : Values) (v : V.Value) (p m : Operator V.Value) → text_merge V v p ≡ ok (some m) → IsSound m
unfolding text_merge supports_root_path validates
text_merge-IsSound V v (sub_type_operator t w f) m h = ground arith
text_merge-IsSound V v _ m h = ground arith

module _ (V : Values) (C : Clients V)
    (client_sound : (n : ℕ) (v : V.Value) (o m : Operator V.Value)
      → C.client_merge n v o ≡ some m
      → IsSound m) where
  open V use {Value}

  merge_by-IsSound :
      (f : SubTypeFunctions) (v : Value) (p m : Operator Value)
      → merge_by V C f v p ≡ ok (some m)
      → IsSound m
  unfolding merge_by
  merge_by-IsSound number_add_functions v p m h = number_merge-IsSound V v p m h
  merge_by-IsSound text_functions v p m h = text_merge-IsSound V v p m h
  merge_by-IsSound (client_functions n) v p m h = client_sound n v p m (cc)

  -- A merged operator is sound.
  merge_operators-IsSound :
      (o p m : Operator Value) → merge_operators V C o p ≡ ok (some m) → IsSound m
  unfolding merge_operators supports_root_path validates
  merge_operators-IsSound noop p m h = ground arith
  merge_operators-IsSound noop_value p m h = ground arith
  merge_operators-IsSound (list_insert v) p m h = ground arith
  merge_operators-IsSound (list_delete v) p m h = ground arith
  merge_operators-IsSound (list_replace v w) p m h = ground arith
  merge_operators-IsSound (list_move i) p m h = ground arith
  merge_operators-IsSound (object_insert v) p m h = ground arith
  merge_operators-IsSound (object_delete v) p m h = ground arith
  merge_operators-IsSound (object_replace v w) p m h = ground arith
  merge_operators-IsSound (sub_type_operator t v f) p m h = merge_by-IsSound f v p m h

  merge-validation : (c d m : Component Value) → merge V C c d ≡ ok (some m) → validation m ≡ ok tt
  unfolding merge
  merge-validation c d m h =
      let (o, e, f) =
        >>=-eq-ok (merge_operators V C c.operator d.operator)
          (λ (o : Option (Operator Value)). ok (at_path V C c.path o)) {b = some m} h in
      found o e f
    where
      found :
          (o : Option (Operator Value))
          → merge_operators V C c.operator d.operator ≡ ok o
          → ok (at_path V C c.path o) ≡ ok (some m)
          → validation m ≡ ok tt
      found none e f = absurd (cc)
      found (some p) e f =
          let m_eq : record { operator = p; path = c.path } ≡ m = cc in
          rw (← m_eq)
            (validation-IsSound c.path p (merge_operators-IsSound c.operator d.operator p e))

  joined-validation :
      (c d : Component Value) (m : Option (Component Value))
      → validation c ≡ ok tt
      → validation d ≡ ok tt
      → merge V C c d ≡ ok m
      → operation_validation (joined V C c d m) ≡ ok tt
  unfolding joined operation_validation
  joined-validation c d (some m) h k e = rw (merge-validation c d m e)
  joined-validation c d none h k e = ground arith

  join_last-validation :
      (c d : Component Value) (r : List (Component Value))
      → validation c ≡ ok tt
      → validation d ≡ ok tt
      → join_last V C c d ≡ ok r
      → operation_validation r ≡ ok tt
  unfolding join_last
  join_last-validation c d r h k e = elim (Bool-cases (equal c.path d.path)) [
    | inl same ↦
        let (m, f, g) =
          >>=-eq-ok (merge V C c d) (λ (m : Option (Component Value)). ok (joined V C c d m))
            {b = r} (rw same at e) in
        let r_eq : joined V C c d m ≡ r = cc in rw (← r_eq) (joined-validation c d m h k f)
    | inr other ↦
        let r_eq : c ∷ d ∷ [] ≡ r = cc (rw other at e) in
        rw (← r_eq) (unfold operation_validation in rw (h, k))
  ]

  push-validation :
      (o : Operation Value) (d : Component Value) (r : Operation Value)
      → operation_validation o ≡ ok tt
      → validation d ≡ ok tt
      → push V C o d ≡ ok r
      → operation_validation r ≡ ok tt
  unfolding push
  push-validation [] d r h k e =
      let r_eq : d ∷ [] ≡ r = cc in
      rw (← r_eq) (operation_validation-cons d [] k (unfold operation_validation in refl))
  push-validation (c ∷ []) d r h k e =
      let (h1, h2) = operation_validation-uncons c [] h in join_last-validation c d r h1 k e
  push-validation (c ∷ (c' ∷ o)) d r h k e =
      let (h1, h2) = operation_validation-uncons c (c' ∷ o) h in
      let (t, e1, e2) =
        >>=-eq-ok (push V C (c' ∷ o) d) (λ (t : Operation Value). ok (c ∷ t)) {b = r} e in
      let r_eq : c ∷ t ≡ r = cc in
      rw (← r_eq) (operation_validation-cons c t h1 (push-validation (c' ∷ o) d t h2 k e1))

  append-validation :
      (o : Operation Value) (d : Component Value) (r : Operation Value)
      → operation_validation o ≡ ok tt
      → validation d ≡ ok tt
      → append V C o d ≡ ok r
      → operation_validation r ≡ ok tt
  unfolding append
  append-validation o d r h k e =
      let (stays, e1, e2) =
        >>=-eq-ok (move_stays d.path d.operator) (λ (b : Bool). if b then ok o else push V C o d)
          {b = r} e in
      elim (Bool-cases stays) [
        | inl here ↦ let r_eq : o ≡ r = cc (rw here at e2) in rw (← r_eq) h
        | inr there ↦ push-validation o d r h k (rw there at e2)
      ]

  -- A composition of two valid operations is valid, if the merges of client sub types give
  -- operators that are valid at every path.
  pub compose-validation :
      (o other r : Operation Value)
      → operation_validation o ≡ ok tt
      → operation_validation other ≡ ok tt
      → compose V C o other ≡ ok r
      → operation_validation r ≡ ok tt
  unfolding compose
  compose-validation o [] r h k e = let r_eq : o ≡ r = cc in rw (← r_eq) h
  compose-validation o (d ∷ other) r h k e =
      let (k1, k2) = operation_validation-uncons d other k in
      let (o', e1, e2) =
        >>=-eq-ok (append V C o d) (λ (o' : Operation Value). compose V C o' other) {b = r} e in
      compose-validation o' other r (append-validation o d o' h k1 e1) k2 e2
