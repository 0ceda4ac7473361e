-- ===== src/Diff/Changes.antt =====
-- diff.go and jsonot.go: applying the changes at sorted keys, one after the other.
use jsonot.Base.{
  ◌≡◌, refl, ◌∙◌, Bool, true, false, Option, none, some, List, [], ◌∷◌, ◌++◌, arith, if◌then◌else◌,
  Bytes, str_eq, str_eq→eq, str_eq_refl, Bool-cases, inl, inr, ok, >>=-eq-ok,
}
use jsonot.Value.{Values, ValueType}
use jsonot.Value.Laws.{find_field, ValueLaws}
use jsonot.Operator.{Operator, object_insert, object_delete, object_replace}
use jsonot.Path.{element_from_key}
use jsonot.SubType.Interface.{Clients}
use jsonot.Component.{validation}
use jsonot.Operation.{Operation, operation_validation}
use jsonot.Apply.{apply_here, apply_to_value}
use jsonot.Apply.Undo.Objects.{insert_here, replace_here, delete_here}
use jsonot.Engine.{apply_component, apply_components}
use jsonot.Diff.Keys.{before_all, is_sorted, is_in, is_in_of_before_all}
use jsonot.Diff.Flat.{change_at, at_key, changes}

-- Both are absent, or they are equal as `Equals` has it.
abbrev pub same_value : (V : Values) → Option V.Value → Option V.Value → Bool
same_value V none none = true
same_value V (some a) (some b) = V.equals a b
same_value V _ _ = false

module _ (V : Values) (laws : ValueLaws V) (C : Clients V) where
  open V use {Value}

  apply_component-key :
      (v : Value) (k : Bytes) (op : Operator Value)
      → apply_component V C v (record { operator = op; path = element_from_key k ∷ [] })
        ≡ apply_here V C v (element_from_key k ∷ []) op
  unfolding apply_component apply_to_value
  apply_component-key v k op = refl

  apply_components-one :
      (v w : Value) (k : Bytes) (op : Operator Value)
      → apply_here V C v (element_from_key k ∷ []) op ≡ ok w
      → apply_components V C v (at_key k (some op)) ≡ ok w
  unfolding apply_components
  apply_components-one v w k op h = rw (apply_component-key v k op ∙ h) refl

  -- What applying the change at a key gives: an object that differs at the key only, where it has
  -- what the other map has.
  abbrev Changed : Value → Bytes → Option Value → Option Value → Type 0
  Changed v k x y =
      (w : Value) × (z : Option Value) × (apply_components V C v (at_key k (change_at V x y))
        ≡ ok w)
      × (V.type_of w ≡ ValueType.object)
      × (same_value V z y ≡ true)
      × ((j : Bytes) → V.get_key w j ≡ (if str_eq k j then z else V.get_key v j))

  unchanged :
      (v : Value) (k j : Bytes) (x : Option Value)
      → V.get_key v k ≡ x
      → V.get_key v j ≡ (if str_eq k j then x else V.get_key v j)
  unchanged v k j x held = elim (Bool-cases (str_eq k j)) [
    | inr apart ↦ rw apart refl
    | inl same ↦ let e : k ≡ j = str_eq→eq k j same in rw same (rw (← e) held)
  ]

  change-Changed :
      (v : Value) (k : Bytes) (x y : Option Value)
      → V.type_of v ≡ ValueType.object
      → V.get_key v k ≡ x
      → Changed v k x y
  unfolding apply_components
  change-Changed v k none none t held = (v, none, refl, t, refl, λ j. unchanged v k j none held)
  change-Changed v k (some a) none t held =
      let (w, d) = laws.objects.delete_key_some v k t in
      (
        w,
        none,
        apply_components-one v w k (object_delete a) (delete_here V laws C v w a a k t held d),
        laws.objects.delete_key_type v w k t d,
        refl,
        λ j. laws.objects.get_key-delete_key v w k j t d,
      )
  change-Changed v k none (some b) t held =
      let (w, s) = laws.objects.set_key_some v b k t in
      (
        w,
        some b,
        apply_components-one v w k (object_insert b) (insert_here V laws C v w b k t s),
        laws.objects.set_key_type v b w k s,
        laws.equality b,
        λ j. laws.objects.get_key-set_key v b w k j s,
      )
  change-Changed v k (some a) (some b) t held = elim (Bool-cases (V.equals a b)) [
    | inl same ↦ rw same (v, some a, refl, t, same, λ j. unchanged v k j (some a) held)
    | inr differ ↦
        let (w, s) = laws.objects.set_key_some v b k t in
        rw differ (
          w,
          some b,
          apply_components-one v w k (object_replace b a) (replace_here V laws C v w b a k t s),
          laws.objects.set_key_type v b w k s,
          laws.equality b,
          λ j. laws.objects.get_key-set_key v b w k j s,
        )
  ]

  apply_components-append :
      (a b : Operation Value) (v w : Value)
      → apply_components V C v a ≡ ok w
      → apply_components V C v (a ++ b) ≡ apply_components V C w b
  unfolding apply_components
  apply_components-append [] b v w h = let e : v ≡ w = cc in rw e refl
  apply_components-append (c ∷ a) b v w h =
      let (u, e1, e2) =
        >>=-eq-ok (apply_component V C v c) (λ (x : Value). apply_components V C x a) {b = w} h in
      rw e1 (apply_components-append a b u w e2)

  -- The changes at sorted keys, one after the other.
  pub apply-changes :
      (m n : List (Bytes × Value)) (ks : List Bytes) (v : Value)
      → V.type_of v ≡ ValueType.object
      → is_sorted ks ≡ true
      → ((j : Bytes) → is_in j ks ≡ true → V.get_key v j ≡ find_field j m)
      → (u : Value) × (apply_components V C v (changes V m n ks) ≡ ok u)
        × ((j : Bytes) → is_in j ks ≡ false → V.get_key u j ≡ V.get_key v j)
        × ((j : Bytes) → is_in j ks ≡ true → same_value V (V.get_key u j) (find_field j n) ≡ true)
  unfolding apply_components
  apply-changes m n [] v t sorted start = (v, refl, (λ j e. refl), (λ j e. absurd cc))
  apply-changes m n (k ∷ ks) v t sorted start =
      let before_rest : before_all k ks ≡ true = ground arith in
      let sorted_rest : is_sorted ks ≡ true = ground arith in
      let not_again : is_in k ks ≡ false = is_in_of_before_all k ks before_rest in
      let held : V.get_key v k ≡ find_field k m = start k (rw (str_eq_refl k) refl) in
      let (w, z, applied, w_type, right_value, keys) =
        change-Changed v k (find_field k m) (find_field k n) t held in
      let start_rest : (j : Bytes) → is_in j ks ≡ true → V.get_key w j ≡ find_field j m = λ j e.
        elim (Bool-cases (str_eq k j)) [
          | inl same ↦ let here : k ≡ j = str_eq→eq k j same in absurd cc
          | inr apart ↦ (rw (keys j) (rw apart refl)) ∙ start j (rw (apart, e) refl)
        ] in
      let (u, applied_rest, others, right_rest) =
        apply-changes m n ks w w_type sorted_rest start_rest in
      (
        u,
        apply_components-append (at_key k (change_at V (find_field k m) (find_field k n)))
              (changes V m n ks) v w applied
            ∙ applied_rest,
        (λ j e.
            let apart : str_eq k j ≡ false = ground arith in
            let rest : is_in j ks ≡ false = ground arith in
            others j rest ∙ (rw (keys j) (rw apart refl))),
        (λ j e. elim (Bool-cases (str_eq k j)) [
          | inl same ↦
              let here : k ≡ j = str_eq→eq k j same in
              let value : V.get_key u j ≡ z =
                others j (rw (← here) not_again) ∙ (rw (keys j) (rw same refl)) in
              rw value (rw (← here) right_value)
          | inr apart ↦ right_rest j (ground arith)
        ]),
      )

  validation-change :
      (k : Bytes) (x y : Option Value) (o : Operation Value)
      → operation_validation o ≡ ok tt
      → operation_validation (at_key k (change_at V x y) ++ o) ≡ ok tt
  unfolding operation_validation validation
  validation-change k none none o h = h
  validation-change k (some a) none o h = h
  validation-change k none (some b) o h = h
  validation-change k (some a) (some b) o h = elim (Bool-cases (V.equals a b)) [
    | inl same ↦ rw same h
    | inr differ ↦ rw differ h
  ]

  pub validation-changes :
      (m n : List (Bytes × Value)) (ks : List Bytes)
      → operation_validation (changes V m n ks) ≡ ok tt
  unfolding operation_validation
  validation-changes m n [] = refl
  validation-changes m n (k ∷ ks) =
      validation-change k (find_field k m) (find_field k n) (changes V m n ks)
        (validation-changes m n ks)
