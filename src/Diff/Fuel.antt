-- ===== src/Diff/Fuel.antt =====
-- diff.go: the recursion of `diffInto` ends.
use jsonot.Base.{
  ℕ, suc, zero, ◌≡◌, ◌≢◌, ◌<◌, refl, ◌&&◌, Option, none, some, List, [], ◌∷◌, arith, length, Bytes,
  str_eq, ok, err, panic, Bool-cases, Option-cases, inl, inr, ◌==◌,
}
use jsonot.Value.{Values}
use jsonot.Value.Laws.{find_field}
use jsonot.Path.{DocPath}
use jsonot.SubType.Interface.{Clients}
use jsonot.SubType.Holder.{Holder}
use jsonot.Operation.{Operation}
use jsonot.Operation.Fuel.{NestBelow}
use jsonot.Diff.{
  Diffed, Deeper, diff_then, diff_key, diff_keys, diff_object, diff_elements, diff_array, diff_into,
}

abbrev pub FieldsBelow : {A : Type 0} → (A → ℕ) → ℕ → List (Bytes × A) → Type 0
FieldsBelow height n [] = Unit {0}
FieldsBelow height n ((k, v) ∷ m) = (height v < n) × FieldsBelow height n m

-- The documented behaviour of JSON values: they are finite, so what an array or an object holds is
-- less high than it is.
pub record HeightLaws (V : Values) (height : V.Value → ℕ) : Type 0 where
  pub array_height :
      (v : V.Value) (vs : List V.Value) → V.get_array v ≡ some vs → NestBelow height (height v) vs
  pub map_height :
      (v : V.Value) (m : List (Bytes × V.Value))
      → V.get_map v ≡ some m
      → FieldsBelow height (height v) m

module _ (V : Values) (C : Clients V) (h : Holder) (height : V.Value → ℕ)
    (law : HeightLaws V height) where
  open V use {Value}

  diff_then-some :
      (r : Diffed V C h) (rest : Operation Value → Diffed V C h)
      → r ≢ none
      → ((o : Operation Value) → rest o ≢ none)
      → diff_then V C h r rest ≢ none
  diff_then-some none rest k l = absurd (k refl)
  diff_then-some (some panic) rest k l = λ e. absurd cc
  diff_then-some (some (err x)) rest k l = λ e. absurd cc
  diff_then-some (some (ok o)) rest k l = l o

  -- A call on what is less high than `n` has a result.
  abbrev TotalBelow : ℕ → Deeper V C h → Type 0
  TotalBelow n deeper =
      (p : DocPath) (v w : Value) (o : Operation Value) → height v < n → deeper p v w o ≢ none

  find_field-below :
      (n : ℕ) (k : Bytes) (m : List (Bytes × Value)) (v : Value)
      → FieldsBelow height n m
      → find_field k m ≡ some v
      → height v < n
  find_field-below n k [] v below e = absurd cc
  find_field-below n k ((j, x) ∷ m) v below e = elim (Bool-cases (str_eq j k)) [
    | inl here ↦ let same : x ≡ v = cc (rw here at e) in rw (← same) below.0
    | inr there ↦ find_field-below n k m v below.1 (rw there at e)
  ]

  diff_key-some :
      (n : ℕ) (deeper : Deeper V C h) (p : DocPath) (x y : Option Value) (o : Operation Value)
      → TotalBelow n deeper
      → ((v : Value) → x ≡ some v → height v < n)
      → diff_key V C h deeper p x y o ≢ none
  unfolding diff_key
  diff_key-some n deeper p none none o total below = λ e. absurd cc
  diff_key-some n deeper p (some v) none o total below = λ e. absurd cc
  diff_key-some n deeper p none (some w) o total below = λ e. absurd cc
  diff_key-some n deeper p (some v) (some w) o total below = total p v w o (below v refl)

  diff_keys-some :
      (n : ℕ) (deeper : Deeper V C h) (p : DocPath) (m m' : List (Bytes × Value)) (ks : List Bytes)
      (o : Operation Value)
      → TotalBelow n deeper
      → FieldsBelow height n m
      → diff_keys V C h deeper p m m' ks o ≢ none
  unfolding diff_keys
  diff_keys-some n deeper p m m' [] o total below = λ e. absurd cc
  diff_keys-some n deeper p m m' (k ∷ ks) o total below =
      diff_then-some _ _
        (diff_key-some n deeper _ (find_field k m) (find_field k m') o total
          (λ v. find_field-below n k m v below))
        (λ o'. diff_keys-some n deeper p m m' ks o' total below)

  diff_elements-some :
      (n i : ℕ) (deeper : Deeper V C h) (p : DocPath) (vs ws : List Value) (o : Operation Value)
      → TotalBelow n deeper
      → NestBelow height n vs
      → diff_elements V C h deeper p i vs ws o ≢ none
  unfolding diff_elements
  diff_elements-some n i deeper p [] [] o total below = λ e. absurd cc
  diff_elements-some n i deeper p [] (w ∷ ws) o total below = λ e. absurd cc
  diff_elements-some n i deeper p (v ∷ vs) [] o total below = λ e. absurd cc
  diff_elements-some n i deeper p (v ∷ vs) (w ∷ ws) o total below =
      diff_then-some _ _ (total _ v w o below.0)
        (λ o'. diff_elements-some n (suc i) deeper p vs ws o' total below.1)

  diff_object-some :
      (deeper : Deeper V C h) (p : DocPath) (from to : Value) (o : Operation Value)
      → TotalBelow (height from) deeper
      → diff_object V C h deeper p from to o ≢ none
  unfolding diff_object
  diff_object-some deeper p from to o total = elim (Option-cases (V.get_map from)) [
    | inl e ↦ rw (diff_object, e) (λ n. absurd cc)
    | inr (m, e) ↦ elim (Option-cases (V.get_map to)) [
      | inl e' ↦ rw (diff_object, e, e') (λ n. absurd cc)
      | inr (m', e') ↦
          rw (diff_object, e, e')
            (diff_keys-some (height from) deeper p m m' _ o total (law.map_height from m e))
    ]
  ]

  diff_array-some :
      (deeper : Deeper V C h) (p : DocPath) (from to : Value) (o : Operation Value)
      → TotalBelow (height from) deeper
      → diff_array V C h deeper p from to o ≢ none
  unfolding diff_array
  diff_array-some deeper p from to o total = elim (Option-cases (V.get_array from)) [
    | inl e ↦ rw (diff_array, e) (λ n. absurd cc)
    | inr (vs, e) ↦ elim (Option-cases (V.get_array to)) [
      | inl e' ↦ rw (diff_array, e, e') (λ n. absurd cc)
      | inr (ws, e') ↦ elim (Bool-cases (length vs == length ws)) [
        | inr differ ↦ rw (diff_array, e, e') (rw differ (λ n. absurd cc))
        | inl same ↦
            rw (diff_array, e, e')
              (rw same (
                diff_elements-some (height from) 0 deeper p vs ws o total
                  (law.array_height from vs e)))
      ]
    ]
  ]

  -- The recursion of `diffInto` ends: with fuel above the height of the first value it has a
  -- result, whatever the second value is; a value is higher than what it holds.
  pub diff_into-some :
      (fuel : ℕ) (p : DocPath) (from to : Value) (o : Operation Value)
      → height from < fuel
      → diff_into V C h fuel p from to o ≢ none
  unfolding diff_into
  diff_into-some zero p from to o below = absurd (omega arith)
  diff_into-some (suc fuel) p from to o below =
      let total : TotalBelow (height from) (diff_into V C h fuel) =
        λ q v w o' k. diff_into-some fuel q v w o' (omega arith) in
      elim (Bool-cases (V.equals from to)) [
        | inl same ↦ rw same (λ n. absurd cc)
        | inr differ ↦ elim (Bool-cases (V.is_object from && V.is_object to)) [
          | inl objects ↦
              rw differ (rw objects (diff_object-some (diff_into V C h fuel) p from to o total))
          | inr other_types ↦ elim (Bool-cases (V.is_array from && V.is_array to)) [
            | inl arrays ↦ rw differ (
                rw other_types
                  (rw arrays (diff_array-some (diff_into V C h fuel) p from to o total)))
            | inr k ↦ elim (Bool-cases (V.is_numeric from && V.is_numeric to)) [
              | inl numbers ↦ rw differ (rw other_types (rw k (rw numbers (λ n. absurd cc))))
              | inr l ↦ rw differ (rw other_types (rw k (rw l (λ n. absurd cc))))
            ]
          ]
        ]
      ]
