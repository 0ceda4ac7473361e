-- ===== src/Diff/Flat.antt =====
-- diff.go: the operation between two objects, of which the first is flat: it holds strings,
-- Booleans and nulls.
use jsonot.Base.{
  append_empty, append_assoc, ℕ, suc, ◌≡◌, refl, ap, ◌∙◌, Bool, true, false, not, ◌&&◌, Option,
  none, some, List, [], ◌∷◌, ◌++◌, arith, if◌then◌else◌, is_nil, Bytes, str_eq, Bool-cases, inl,
  inr, Result, ok,
}
use jsonot.Value.{Values}
use jsonot.Value.Laws.{find_field}
use jsonot.Operator.{Operator, object_insert, object_delete, object_replace}
use jsonot.Path.{DocPath, element_from_key, equal, same_element, last}
use jsonot.SubType.Interface.{Clients}
use jsonot.SubType.Holder.{Holder}
use jsonot.Component.{Component, new_component}
use jsonot.Operation.{Operation, append}
use jsonot.Operation.Fresh.{has_path, append-fresh}
use jsonot.Diff.{bytes_lt, diff_key, diff_keys, diff_into, append_replace, replace_operator}
use jsonot.Diff.Keys.{bytes_lt_apart, before_all, is_sorted}

-- What the difference writes at a key, with its values in the two maps.
abbrev pub change_at : (V : Values) → Option V.Value → Option V.Value → Option (Operator V.Value)
change_at V none none = none
change_at V (some v) none = some (object_delete v)
change_at V none (some w) = some (object_insert w)
change_at V (some v) (some w) = if V.equals v w then none else some (object_replace w v)

abbrev pub at_key : {V : Type 0} → Bytes → Option (Operator V) → List (Component V)
at_key k none = []
at_key k (some op) = record { operator = op; path = element_from_key k ∷ [] } ∷ []

abbrev pub changes :
    (V : Values) → List (Bytes × V.Value) → List (Bytes × V.Value) → List Bytes → Operation V.Value
changes V m n [] = []
changes V m n (k ∷ ks) =
    at_key k (change_at V (find_field k m) (find_field k n)) ++ changes V m n ks

-- Neither an object, nor an array, nor a number.
abbrev pub is_plain : (V : Values) → V.Value → Bool
is_plain V v = not (V.is_object v) && (not (V.is_array v) && not (V.is_numeric v))

abbrev pub all_plain : (V : Values) → List (Bytes × V.Value) → Bool
all_plain V [] = true
all_plain V ((k, v) ∷ m) = is_plain V v && all_plain V m

abbrev pub all_named : List Bytes → Bool
all_named [] = true
all_named (k ∷ ks) = not (is_nil k) && all_named ks

module _ (V : Values) (C : Clients V) (h : Holder) where
  open V use {Value}

  replace_operator-key :
      (k : Bytes) (v w : Value)
      → is_nil k ≡ false
      → replace_operator V C h (element_from_key k ∷ []) v w ≡ object_replace w v
  unfolding replace_operator last
  replace_operator-key k v w named = rw (replace_operator, named) refl

  append_replace-key :
      (k : Bytes) (v w : Value) (o : Operation Value)
      → is_nil k ≡ false
      → has_path (element_from_key k ∷ []) o ≡ false
      → append_replace V C h (element_from_key k ∷ []) v w o
        ≡ ok (o ++ at_key k (some (object_replace w v)))
  unfolding append_replace
  append_replace-key k v w o named fresh_path =
      ap (λ (op : Operator Value). append V C o (new_component (element_from_key k ∷ []) op))
        (replace_operator-key k v w named)
      ∙ append-fresh V C o (element_from_key k ∷ []) (object_replace w v) tt fresh_path

  diff_into-plain :
      (fuel : ℕ) (k : Bytes) (v w : Value) (o : Operation Value)
      → is_plain V v ≡ true
      → is_nil k ≡ false
      → has_path (element_from_key k ∷ []) o ≡ false
      → diff_into V C h (suc fuel) (element_from_key k ∷ []) v w o
        ≡ some (ok (o ++ at_key k (change_at V (some v) (some w))))
  unfolding diff_into
  diff_into-plain fuel k v w o plain named fresh_path = elim (Bool-cases (V.equals v w)) [
    | inl same ↦ rw (diff_into, same) (ap (λ (x : Operation Value). some (ok x)) (append_empty o))
    | inr differ ↦
        let a : V.is_object v ≡ false = ground arith in
        let b : V.is_array v ≡ false = ground arith in
        let c : V.is_numeric v ≡ false = ground arith in
        rw (diff_into, differ)
          (rw (a, b, c)
            (ap (λ (x : Result (Operation Value)). some x)
              (append_replace-key k v w o named fresh_path)))
  ]

  diff_key-plain :
      (fuel : ℕ) (k : Bytes) (x y : Option Value) (o : Operation Value)
      → ((v : Value) → x ≡ some v → is_plain V v ≡ true)
      → is_nil k ≡ false
      → has_path (element_from_key k ∷ []) o ≡ false
      → diff_key V C h (diff_into V C h (suc fuel)) (element_from_key k ∷ []) x y o
        ≡ some (ok (o ++ at_key k (change_at V x y)))
  unfolding diff_key
  diff_key-plain fuel k none none o plain named fresh_path =
      ap (λ (x : Operation Value). some (ok x)) (append_empty o)
  diff_key-plain fuel k (some v) none o plain named fresh_path =
      ap (λ (x : Result (Operation Value)). some x)
        (append-fresh V C o (element_from_key k ∷ []) (object_delete v) tt fresh_path)
  diff_key-plain fuel k none (some w) o plain named fresh_path =
      ap (λ (x : Result (Operation Value)). some x)
        (append-fresh V C o (element_from_key k ∷ []) (object_insert w) tt fresh_path)
  diff_key-plain fuel k (some v) (some w) o plain named fresh_path =
      diff_into-plain fuel k v w o (plain v refl) named fresh_path

  find_field-plain :
      (k : Bytes) (m : List (Bytes × Value)) (v : Value)
      → all_plain V m ≡ true
      → find_field k m ≡ some v
      → is_plain V v ≡ true
  find_field-plain k [] v w e = absurd cc
  find_field-plain k ((j, x) ∷ m) v w e =
      let first : is_plain V x ≡ true = ground arith in
      let rest : all_plain V m ≡ true = ground arith in
      elim (Bool-cases (str_eq j k)) [
        | inl here ↦ let same : x ≡ v = cc (rw here at e) in rw (← same) first
        | inr there ↦ find_field-plain k m v rest (rw there at e)
      ]

  -- No component of the operation is at one of the keys.
  abbrev pub fresh_all : List Bytes → Operation Value → Bool
  fresh_all [] o = true
  fresh_all (k ∷ ks) o = not (has_path (element_from_key k ∷ []) o) && fresh_all ks o

  equal-keys :
      (k j : Bytes)
      → str_eq k j ≡ false
      → equal (element_from_key k ∷ []) (element_from_key j ∷ []) ≡ false
  unfolding equal same_element
  equal-keys k j e = rw (equal, e) refl

  has_path-append :
      (p : DocPath) (o : Operation Value) (c : Component Value)
      → has_path p o ≡ false
      → equal c.path p ≡ false
      → has_path p (o ++ c ∷ []) ≡ false
  has_path-append p [] c a b = rw b refl
  has_path-append p (d ∷ o) c a b =
      let first : equal d.path p ≡ false = ground arith in
      let rest : has_path p o ≡ false = ground arith in
      rw (first, has_path-append p o c rest b) refl

  has_path-at_key :
      (k j : Bytes) (o : Operation Value) (op : Option (Operator Value))
      → str_eq k j ≡ false
      → has_path (element_from_key j ∷ []) o ≡ false
      → has_path (element_from_key j ∷ []) (o ++ at_key k op) ≡ false
  has_path-at_key k j o none e a = rw (← append_empty o) a
  has_path-at_key k j o (some op) e a =
      has_path-append (element_from_key j ∷ []) o
        (record { operator = op; path = element_from_key k ∷ [] }) a (equal-keys k j e)

  fresh_all-at_key :
      (k : Bytes) (ks : List Bytes) (o : Operation Value) (op : Option (Operator Value))
      → before_all k ks ≡ true
      → fresh_all ks o ≡ true
      → fresh_all ks (o ++ at_key k op) ≡ true
  fresh_all-at_key k [] o op b f = refl
  fresh_all-at_key k (j ∷ ks) o op b f =
      let before_j : bytes_lt k j ≡ true = ground arith in
      let before_rest : before_all k ks ≡ true = ground arith in
      let fresh_j : has_path (element_from_key j ∷ []) o ≡ false = ground arith in
      let fresh_rest : fresh_all ks o ≡ true = ground arith in
      rw
        (
          has_path-at_key k j o op (bytes_lt_apart k j before_j) fresh_j,
          fresh_all-at_key k ks o op before_rest fresh_rest,
        )
        refl

  -- The loop over sorted keys appends the changes at these keys.
  pub diff_keys-changes :
      (fuel : ℕ) (m n : List (Bytes × Value)) (ks : List Bytes) (o : Operation Value)
      → all_plain V m ≡ true
      → is_sorted ks ≡ true
      → all_named ks ≡ true
      → fresh_all ks o ≡ true
      → diff_keys V C h (diff_into V C h (suc fuel)) [] m n ks o ≡ some (ok (o ++ changes V m n ks))
  unfolding diff_keys
  diff_keys-changes fuel m n [] o plain sorted named fresh_keys =
      ap (λ (x : Operation Value). some (ok x)) (append_empty o)
  diff_keys-changes fuel m n (k ∷ ks) o plain sorted named fresh_keys =
      let before_rest : before_all k ks ≡ true = ground arith in
      let sorted_rest : is_sorted ks ≡ true = ground arith in
      let named_k : is_nil k ≡ false = ground arith in
      let named_rest : all_named ks ≡ true = ground arith in
      let fresh_k : has_path (element_from_key k ∷ []) o ≡ false = ground arith in
      let fresh_rest : fresh_all ks o ≡ true = ground arith in
      let op : Option (Operator Value) = change_at V (find_field k m) (find_field k n) in
      rw
        (diff_key-plain fuel k (find_field k m) (find_field k n) o
          (λ v. find_field-plain k m v plain) named_k fresh_k)
        (diff_keys-changes fuel m n ks (o ++ at_key k op) plain sorted_rest named_rest
            (fresh_all-at_key k ks o op before_rest fresh_rest)
          ∙ ap (λ (x : Operation Value). some (ok x))
              (append_assoc o (at_key k op) (changes V m n ks)))

  pub fresh_all_empty : (ks : List Bytes) → fresh_all ks [] ≡ true
  fresh_all_empty [] = refl
  fresh_all_empty (k ∷ ks) = fresh_all_empty ks
