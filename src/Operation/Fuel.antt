-- ===== src/Operation/Fuel.antt =====
-- jsonot.go, `OperationComponentsFromValue`: its recursion into arrays ends.
use jsonot.Base.{
  ℕ, suc, zero, ◌<◌, ◌≡◌, ◌≢◌, refl, ap, ◌∙◌, none, some, List, [], ◌∷◌, arith, ok, err, panic,
  Bool-cases, Option-cases, inl, inr,
}
use jsonot.Value.{Values}
use jsonot.SubType.Holder.{Holder}
use jsonot.Operation.Decode.{Decoded, followed_by, components_from_values, components_from_value}

-- Each value nests arrays less than `n` deep.
abbrev pub NestBelow : {A : Type 0} → (A → ℕ) → ℕ → List A → Type 0
NestBelow nesting n [] = Unit {0}
NestBelow nesting n (v ∷ vs) = (nesting v < n) × NestBelow nesting n vs

-- The documented behaviour of JSON values: they are finite, so the elements of an array nest arrays
-- less deep than it does.
abbrev pub NestingLaw : (V : Values) → (V.Value → ℕ) → Type 0
NestingLaw V nesting =
    (v : V.Value) (vs : List V.Value) → V.get_array v ≡ some vs → NestBelow nesting (nesting v) vs

module _ (V : Values) (h : Holder) (nesting : V.Value → ℕ) (law : NestingLaw V nesting) where
  open V use {Value}

  followed_by-some :
      (r : Decoded V h) (rest : ℕ → Decoded V h)
      → r ≢ none
      → ((n : ℕ) → rest n ≢ none)
      → followed_by V h r rest ≢ none
  followed_by-some none rest k l = absurd (k refl)
  followed_by-some (some (err e)) rest k l = λ e. cc
  followed_by-some (some panic) rest k l = λ e. cc
  followed_by-some (some (ok (next, cs))) rest k l = elim (Option-cases (rest next)) [
    | inl e ↦ absurd (l next e)
    | inr (a, e) ↦ λ n. absurd (cc (rw e at n))
  ]

  followed_by-same :
      (r : Decoded V h) (rest rest' : ℕ → Decoded V h)
      → ((n : ℕ) → rest n ≡ rest' n)
      → followed_by V h r rest ≡ followed_by V h r rest'
  followed_by-same none rest rest' k = refl
  followed_by-same (some (err e)) rest rest' k = refl
  followed_by-same (some panic) rest rest' k = refl
  followed_by-same (some (ok (next, cs))) rest rest' k = rw (k next) refl

  values-some :
      (deeper : ℕ → Value → Decoded V h) (n fresh : ℕ) (vs : List Value)
      → ((m : ℕ) (v : Value) → nesting v < n → deeper m v ≢ none)
      → NestBelow nesting n vs
      → components_from_values V h deeper fresh vs ≢ none
  unfolding components_from_values
  values-some deeper n fresh [] total below = λ e. absurd cc
  values-some deeper n fresh (v ∷ vs) total below =
      followed_by-some (deeper fresh v) (λ m. components_from_values V h deeper m vs)
        (total fresh v below.0) (λ m. values-some deeper n m vs total below.1)

  values-same :
      (deeper deeper' : ℕ → Value → Decoded V h) (n fresh : ℕ) (vs : List Value)
      → ((m : ℕ) (v : Value) → nesting v < n → deeper m v ≡ deeper' m v)
      → NestBelow nesting n vs
      → components_from_values V h deeper fresh vs ≡ components_from_values V h deeper' fresh vs
  unfolding components_from_values
  values-same deeper deeper' n fresh [] agree below = refl
  values-same deeper deeper' n fresh (v ∷ vs) agree below =
      ap (λ (r : Decoded V h). followed_by V h r (λ m. components_from_values V h deeper m vs))
        (agree fresh v below.0)
      ∙ followed_by-same (deeper' fresh v) _ _
          (λ m. values-same deeper deeper' n m vs agree below.1)

  components_from_value-some :
      (depth fresh : ℕ) (v : Value)
      → nesting v < depth
      → components_from_value V h depth fresh v ≢ none
  unfolding components_from_value
  components_from_value-some zero fresh v below = absurd (omega arith)
  components_from_value-some (suc depth) fresh v below = elim (Bool-cases (V.is_array v)) [
    | inl array ↦ elim (Option-cases (V.get_array v)) [
      | inl e ↦ rw (array, e) (λ n. absurd cc)
      | inr (vs, e) ↦
          rw (array, e)
            (values-some (components_from_value V h depth) (nesting v) fresh vs
              (λ m w k. components_from_value-some depth m w (omega arith)) (law v vs e))
    ]
    | inr no_array ↦ elim (Bool-cases (V.is_object v)) [
      | inl object ↦ rw (no_array, object) (λ n. absurd cc)
      | inr no_object ↦ rw (no_array, no_object) (λ n. absurd cc)
    ]
  ]

  components_from_value-same :
      (depth depth' fresh : ℕ) (v : Value)
      → nesting v < depth
      → nesting v < depth'
      → components_from_value V h depth fresh v ≡ components_from_value V h depth' fresh v
  unfolding components_from_value
  components_from_value-same zero depth' fresh v below below' = absurd (omega arith)
  components_from_value-same (suc depth) zero fresh v below below' = absurd (omega arith)
  components_from_value-same (suc depth) (suc depth') fresh v below below' =
      elim (Bool-cases (V.is_array v)) [
        | inl array ↦ elim (Option-cases (V.get_array v)) [
          | inl e ↦ rw (array, e) refl
          | inr (vs, e) ↦
              rw (array, e)
                (values-same (components_from_value V h depth) (components_from_value V h depth')
                  (nesting v) fresh vs
                  (λ m w k. components_from_value-same depth depth' m w (omega arith) (omega arith))
                  (law v vs e))
        ]
        | inr no_array ↦ rw no_array refl
      ]

  -- Reading components from a value ends: with any fuel above the depth to which the value nests
  -- arrays there is a result, and it is the same for all such fuels.
  pub components_from_value-fuel :
      (depth fresh : ℕ) (v : Value)
      → nesting v < depth
      → (components_from_value V h depth fresh v ≢ none)
        × (components_from_value V h depth fresh v
            ≡ components_from_value V h (suc (nesting v)) fresh v)
  components_from_value-fuel depth fresh v below = (
    components_from_value-some depth fresh v below,
    components_from_value-same depth (suc (nesting v)) fresh v below (omega arith),
  )
