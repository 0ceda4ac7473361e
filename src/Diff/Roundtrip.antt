-- ===== src/Diff/Roundtrip.antt =====
-- diff.go and jsonot.go: applying the difference of two objects, of which the first is flat.
use jsonot.Base.{
  ℕ, suc, ◌≡◌, ◌≢◌, refl, sym, ap, ◌∙◌, true, false, Option, none, some, List, [], ◌∷◌, arith,
  is_present, Bytes, Bool-cases, inl, inr, ok,
}
use jsonot.Value.{Values, ValueType}
use jsonot.Value.Laws.{find_field, ValueLaws}
use jsonot.SubType.Interface.{Clients}
use jsonot.SubType.Holder.{Holder}
use jsonot.Operation.{Operation, operation_validation}
use jsonot.Engine.{apply, apply_components}
use jsonot.Diff.{add_keys, diff_object, diff_into, diff}
use jsonot.Diff.Keys.{is_in, is_in-add_keys, is_sorted-add_keys}
use jsonot.Diff.Flat.{changes, all_plain, all_named, fresh_all_empty, diff_keys-changes}
use jsonot.Diff.Changes.{same_value, apply-changes, validation-changes}

-- The documented behaviour of `GetMap`: the map has the keys and values of the object.
abbrev pub MapLaw : Values → Type 0
MapLaw V =
    (v : V.Value) (m : List (Bytes × V.Value)) (k : Bytes)
    → V.get_map v ≡ some m
    → find_field k m ≡ V.get_key v k

not_present : {A : Type 0} (x : Option A) → is_present x ≡ false → x ≡ none
not_present none h = refl
not_present (some a) h = absurd cc

module _ (V : Values) (laws : ValueLaws V) (C : Clients V) where
  open V use {Value}

  apply_of_components :
      (v u : Value) (o : Operation Value)
      → V.type_of v ≡ ValueType.object
      → operation_validation o ≡ ok tt
      → apply_components V C v o ≡ ok u
      → apply V C v o ≡ ok u
  unfolding apply apply_components
  apply_of_components v u [] t valid h = h
  apply_of_components v u (c ∷ o) t valid h =
      let parsed : V.type_of v ≢ ValueType.any = λ e. absurd cc in
      rw valid (ap (λ (x : Value). apply_components V C x (c ∷ o)) (laws.packing v parsed) ∙ h)

  same_none : (x y : Option Value) → x ≡ none → y ≡ none → same_value V x y ≡ true
  same_none x y a b = rw (a, b) refl

  diff-changes :
      (h : Holder) (fuel : ℕ) (from to : Value) (m n : List (Bytes × Value))
      → V.is_object from ≡ true
      → V.is_object to ≡ true
      → V.equals from to ≡ false
      → V.get_map from ≡ some m
      → V.get_map to ≡ some n
      → all_plain V m ≡ true
      → all_named (add_keys m (add_keys n [])) ≡ true
      → diff V C h (suc (suc fuel)) from to ≡ some (ok (changes V m n (add_keys m (add_keys n []))))
  unfolding diff diff_into diff_object
  diff-changes h fuel from to m n objects objects' differ has_m has_n plain named =
      let ks : List Bytes = add_keys m (add_keys n []) in
      rw differ (
        rw (objects, objects')
          (rw (diff_object, has_m, has_n)
            (diff_keys-changes V C h fuel m n ks [] plain
              (is_sorted-add_keys m (add_keys n []) (is_sorted-add_keys n [] refl)) named
              (fresh_all_empty V C h ks))))

  -- The difference of two objects that are not equal has a result, where the first holds only
  -- strings, Booleans and nulls and no key is empty; applying it to the first succeeds, and gives
  -- a value that has at every key what the second has: nothing, or an equal value.
  pub apply-diff :
      (maps : MapLaw V) (h : Holder) (fuel : ℕ) (from to : Value) (m n : List (Bytes × Value))
      → V.type_of from ≡ ValueType.object
      → V.is_object from ≡ true
      → V.is_object to ≡ true
      → V.equals from to ≡ false
      → V.get_map from ≡ some m
      → V.get_map to ≡ some n
      → all_plain V m ≡ true
      → all_named (add_keys m (add_keys n [])) ≡ true
      → (o : Operation Value) × (u : Value) × (diff V C h (suc (suc fuel)) from to ≡ some (ok o))
        × (apply V C from o ≡ ok u)
        × ((j : Bytes) → same_value V (V.get_key u j) (V.get_key to j) ≡ true)
  apply-diff maps h fuel from to m n t objects objects' differ has_m has_n plain named =
      let ks : List Bytes = add_keys m (add_keys n []) in
      let (u, applied, others, right) =
        apply-changes V laws C m n ks from t
          (is_sorted-add_keys m (add_keys n []) (is_sorted-add_keys n [] refl))
          (λ j e. sym (maps from m j has_m)) in
      (
        changes V m n ks,
        u,
        diff-changes h fuel from to m n objects objects' differ has_m has_n plain named,
        apply_of_components from u (changes V m n ks) t (validation-changes V laws C m n ks)
            applied,
        λ j. elim (Bool-cases (is_in j ks)) [
          | inl here ↦ rw (← maps to n j has_n) (right j here)
          | inr apart ↦
              let present = is_in-add_keys j m (add_keys n []) in
              let present' = is_in-add_keys j n [] in
              let no_m : is_present (find_field j m) ≡ false = ground arith in
              let no_n : is_present (find_field j n) ≡ false = ground arith in
              same_none _ _
                (others j apart ∙ (sym (maps from m j has_m) ∙ not_present (find_field j m) no_m))
                (sym (maps to n j has_n) ∙ not_present (find_field j n) no_n)
        ],
      )
