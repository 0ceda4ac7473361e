-- ===== src/Operation/RoundTrip.antt =====
-- operation.go and path.go: what `ToValue` writes, the decoder reads back.
use jsonot.Base.{
  ℕ, ◌∙◌, ◌≡◌, refl, ap, sym, true, false, none, some, List, [], ◌∷◌, map, is_nil, ℤ, pos, Bytes,
  lit, str_eq, ok, Bool-cases, inl, inr, eq_ℤ→eq,
}
use jsonot.Value.{Values, Any, of_raw}
use jsonot.Value.Laws.{find_field}
use jsonot.Value.Codec.{CodecLaws, is_number_like, is_exact}
use jsonot.Operator.{
  clone, Operator, noop, list_insert, list_delete, list_replace, object_insert, object_delete,
  object_replace,
}
use jsonot.Path.{DocPath, path_from_value, elements_from_values, element_from_value}
use jsonot.Path.Laws.{AllCanonical}
use jsonot.SubType.Holder.{Holder}
use jsonot.SubType.Interface.{Clients}
use jsonot.Component.{Component, new_component}
use jsonot.Component.Inverse.{IsPlain}
use jsonot.Operation.{Operation, component_to_value, raw_path, operator_fields}
use jsonot.Operation.Decode.{
  component_from_value, operator_from_value, map_to_operator, validate_size, to_list_insert,
  to_list_delete, to_list_replace, to_object_insert, to_object_delete, to_object_replace,
}

-- The indexes of a path are exact, and no key begins as a number does.
abbrev pub AllSafe : DocPath → Type 0
AllSafe [] = Unit {0}
AllSafe (a ∷ p) = (is_exact a.index ≡ true) × (is_number_like a.key ≡ false) × AllSafe p

-- No value of an operator is null.
abbrev pub NoNulls : (V : Values) → Operator V.Value → Type 0
NoNulls V (list_insert v) = V.is_null v ≡ false
NoNulls V (list_delete v) = V.is_null v ≡ false
NoNulls V (list_replace v old) = (V.is_null v ≡ false) × (V.is_null old ≡ false)
NoNulls V (object_insert v) = V.is_null v ≡ false
NoNulls V (object_delete v) = V.is_null v ≡ false
NoNulls V (object_replace v old) = (V.is_null v ≡ false) × (V.is_null old ≡ false)
NoNulls V _ = Unit {0}

is_nil→nil : (b : Bytes) → is_nil b ≡ true → b ≡ []
is_nil→nil [] h = refl
is_nil→nil (x ∷ b) h = absurd (cc)

module _ (V : Values) (laws : CodecLaws V) (C : Clients V) where
  open V use {Value, Float}

  elements-raw_path :
      (p : DocPath)
      → AllCanonical p
      → AllSafe p
      → elements_from_values V (map V.from_any (raw_path V C p)) ≡ ok p
  unfolding elements_from_values element_from_value raw_path
  elements-raw_path [] h safe = refl
  elements-raw_path (a ∷ p) h safe = elim (Bool-cases (is_nil a.key)) [
    | inl bare ↦ rw bare (
        rw (laws.int_is_string a.index, laws.int_is_int a.index safe.0)
          (rw (laws.get_int_lem a.index safe.0, elements-raw_path p h.1 safe.2)
            (ap (λ (k : Bytes). ok (record { key = k; index = a.index } ∷ p))
              (sym (is_nil→nil a.key bare)))))
    | inr named ↦ rw named (
        rw (laws.string_is_string a.key, laws.string_is_int a.key safe.1)
          (rw (laws.get_string_lem a.key, elements-raw_path p h.1 safe.2)
            (ap (λ (i : ℤ). ok (record { key = a.key; index = i } ∷ p))
              (sym (eq_ℤ→eq a.index (pos 0) (rw named at h.0))))))
  ]

  abbrev Fields : Type 0
  Fields = List (Bytes × Any Value Float)

  has_not :
      (m : Fields) (k : Bytes) → find_field k m ≡ none → V.has_key (V.from_any_map m) k ≡ false
  has_not m k h = laws.has_key-absent (V.from_any_map m) k (laws.get_key-map m k ∙ (rw h refl))

  has :
      (m : Fields) (k : Bytes) (v : Value)
      → find_field k m ≡ some (of_raw v)
      → V.is_null v ≡ false
      → V.has_key (V.from_any_map m) k ≡ true
  has m k v h there =
      laws.has_key-present (V.from_any_map m) v k
        (laws.get_key-map m k ∙ (rw h (ap some (laws.raw v)))) there

  map_to_operator-fields :
      (h : Holder) (fresh : ℕ) (p : Any Value Float) (op : Operator Value)
      → IsPlain op
      → NoNulls V op
      → map_to_operator V h fresh (V.from_any_map ((lit "p", p) ∷ operator_fields V C op)) ≡ ok op
  unfolding map_to_operator operator_fields str_eq validate_size to_list_insert to_list_delete
      to_list_replace to_object_insert to_object_delete to_object_replace
  map_to_operator-fields h fresh p noop w z =
      let m : Fields = (lit "p", p) ∷ [] in
      rw (
        (has_not m (lit "na") refl),
        (has_not m (lit "t") refl),
        (has_not m (lit "lm") refl),
        (has_not m (lit "li") refl),
        (has_not m (lit "ld") refl),
        (has_not m (lit "oi") refl),
        (has_not m (lit "od") refl),
        laws.size-map m,
      )
  map_to_operator-fields h fresh p (list_insert v) w z =
      let m : Fields = (lit "p", p) ∷ (lit "li", of_raw v) ∷ [] in
      rw
        (
          (has_not m (lit "na") refl),
          (has_not m (lit "t") refl),
          (has_not m (lit "lm") refl),
          (has m (lit "li") v refl z),
          (has_not m (lit "ld") refl),
        )
        (rw (
          to_list_insert,
          laws.get_key-map m (lit "li"),
          (has_not m (lit "ld") refl),
          laws.size-map m,
          laws.raw v,
        ))
  map_to_operator-fields h fresh p (list_delete v) w z =
      let m : Fields = (lit "p", p) ∷ (lit "ld", of_raw v) ∷ [] in
      rw
        (
          (has_not m (lit "na") refl),
          (has_not m (lit "t") refl),
          (has_not m (lit "lm") refl),
          (has_not m (lit "li") refl),
          (has m (lit "ld") v refl z),
        )
        (rw (to_list_delete, laws.size-map m, laws.get_key-map m (lit "ld"), laws.raw v))
  map_to_operator-fields h fresh p (list_replace v old) w z =
      let m : Fields = (lit "p", p) ∷ (lit "li", of_raw v) ∷ (lit "ld", of_raw old) ∷ [] in
      rw
        (
          (has_not m (lit "na") refl),
          (has_not m (lit "t") refl),
          (has_not m (lit "lm") refl),
          (has m (lit "li") v refl z.0),
          (has m (lit "ld") old refl z.1),
        )
        (rw (to_list_replace, laws.size-map m, laws.get_key-map m (lit "li"))
          (rw (laws.get_key-map m (lit "ld"), laws.raw v, laws.raw old)))
  map_to_operator-fields h fresh p (object_insert v) w z =
      let m : Fields = (lit "p", p) ∷ (lit "oi", of_raw v) ∷ [] in
      rw
        (
          (has_not m (lit "na") refl),
          (has_not m (lit "t") refl),
          (has_not m (lit "lm") refl),
          (has_not m (lit "li") refl),
          (has_not m (lit "ld") refl),
          (has m (lit "oi") v refl z),
          (has_not m (lit "od") refl),
        )
        (rw (to_object_insert, laws.size-map m, laws.get_key-map m (lit "oi"), laws.raw v))
  map_to_operator-fields h fresh p (object_delete v) w z =
      let m : Fields = (lit "p", p) ∷ (lit "od", of_raw v) ∷ [] in
      rw
        (
          (has_not m (lit "na") refl),
          (has_not m (lit "t") refl),
          (has_not m (lit "lm") refl),
          (has_not m (lit "li") refl),
          (has_not m (lit "ld") refl),
          (has_not m (lit "oi") refl),
          (has m (lit "od") v refl z),
        )
        (rw (to_object_delete, laws.size-map m, laws.get_key-map m (lit "od"), laws.raw v))
  map_to_operator-fields h fresh p (object_replace v old) w z =
      let m : Fields = (lit "p", p) ∷ (lit "oi", of_raw v) ∷ (lit "od", of_raw old) ∷ [] in
      rw
        (
          (has_not m (lit "na") refl),
          (has_not m (lit "t") refl),
          (has_not m (lit "lm") refl),
          (has_not m (lit "li") refl),
          (has_not m (lit "ld") refl),
          (has m (lit "oi") v refl z.0),
          (has m (lit "od") old refl z.1),
        )
        (rw (to_object_replace, laws.size-map m, laws.get_key-map m (lit "oi"))
          (rw (laws.get_key-map m (lit "od"), laws.raw v, laws.raw old)))
  map_to_operator-fields h fresh p _ w z = absurd w

  clone-plain : (op : Operator Value) → IsPlain op → clone op ≡ op
  unfolding clone
  clone-plain noop w = refl
  clone-plain (list_insert v) w = refl
  clone-plain (list_delete v) w = refl
  clone-plain (list_replace v old) w = refl
  clone-plain (object_insert v) w = refl
  clone-plain (object_delete v) w = refl
  clone-plain (object_replace v old) w = refl
  clone-plain _ w = absurd w

  -- The components of an operation have operators on values, none of them null, at paths that are
  -- canonical and safe.
  abbrev pub AllPlain : Operation Value → Type 0
  AllPlain [] = Unit {0}
  AllPlain (c ∷ o) =
      IsPlain c.operator × NoNulls V c.operator × AllCanonical c.path × AllSafe c.path × AllPlain o

  -- A component like these is read back from the value that `ToValue` makes of it.
  pub component_from_value-component_to_value :
      (h : Holder) (fresh : ℕ) (c : Component Value)
      → IsPlain c.operator
      → NoNulls V c.operator
      → AllCanonical c.path
      → AllSafe c.path
      → component_from_value V h fresh (component_to_value V C c) ≡ ok c
  unfolding component_from_value component_to_value operator_from_value path_from_value
      new_component str_eq
  component_from_value-component_to_value h fresh c w z canonical safe =
      let path : Value = V.from_any_list (raw_path V C c.path) in
      let m : Fields = (lit "p", of_raw path) ∷ operator_fields V C c.operator in
      rw
        (
          component_from_value,
          component_to_value,
          laws.get_key-map m (lit "p"),
          laws.raw path,
          laws.get_array-list (raw_path V C c.path),
        )
        (rw (elements-raw_path c.path canonical safe, laws.map_is_object m)
          (rw (
            map_to_operator-fields h fresh (of_raw path) c.operator w z,
            clone-plain c.operator w,
          )))
