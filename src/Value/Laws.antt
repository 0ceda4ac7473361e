-- ===== src/Value/Laws.antt =====
-- What the algorithms rely on of an implementation of `Value`: the documented behaviour of the
-- methods in value.go, for values that are parsed (none of type `Any`).
use jsonot.Base.{◌≡◌, ◌≢◌, true, Option, none, some, List, [], ◌∷◌, if◌then◌else◌, Bytes, str_eq}
use jsonot.Value.{Values, ValueType}

-- Keys that a list of pairs holds once; `ValueFromAny` of a Go map gets such a list.
abbrev pub find_field {ℓ} : {A : Type ℓ} → Bytes → List (Bytes × A) → Option A
find_field k [] = none
find_field k ((j, a) ∷ m) = if str_eq j k then some a else find_field k m

pub record ObjectLaws (V : Values) : Type 0 where
  pub set_key_some :
      (v x : V.Value) (k : Bytes)
      → V.type_of v ≡ ValueType.object
      → (w : V.Value) × (V.set_key v k x ≡ some w)
  pub set_key_type :
      (v x w : V.Value) (k : Bytes) → V.set_key v k x ≡ some w → V.type_of w ≡ ValueType.object
  pub get_key-set_key :
      (v x w : V.Value) (k j : Bytes)
      → V.set_key v k x ≡ some w
      → V.get_key w j ≡ (if str_eq k j then some x else V.get_key v j)
  pub delete_key_some :
      (v : V.Value) (k : Bytes)
      → V.type_of v ≡ ValueType.object
      → (w : V.Value) × (V.delete_key v k ≡ some w)
  pub delete_key_type :
      (v w : V.Value) (k : Bytes)
      → V.type_of v ≡ ValueType.object
      → V.delete_key v k ≡ some w
      → V.type_of w ≡ ValueType.object
  pub get_key-delete_key :
      (v w : V.Value) (k j : Bytes)
      → V.type_of v ≡ ValueType.object
      → V.delete_key v k ≡ some w
      → V.get_key w j ≡ (if str_eq k j then none else V.get_key v j)
  pub update_object_lem :
      (v w : V.Value)
      → V.type_of v ≡ ValueType.object
      → V.type_of w ≡ ValueType.object
      → V.update_object v w ≡ some w

pub record ArrayLaws (V : Values) : Type 0 where
  pub get_array_some :
      (v : V.Value)
      → V.type_of v ≡ ValueType.array
      → (xs : List V.Value) × (V.get_array v ≡ some xs)
  pub update_array_some :
      (v : V.Value) (xs : List V.Value)
      → V.type_of v ≡ ValueType.array
      → (w : V.Value) × (V.update_array v xs ≡ some w)
  pub update_array_type :
      (v w : V.Value) (xs : List V.Value)
      → V.update_array v xs ≡ some w
      → V.type_of w ≡ ValueType.array
  pub get_array-update_array :
      (v w : V.Value) (xs : List V.Value) → V.update_array v xs ≡ some w → V.get_array w ≡ some xs

-- `PackAny` parses a value of type `Any`, and leaves any other as it is.
abbrev pub PackLaw : Values → Type 0
PackLaw V = (v : V.Value) → V.type_of v ≢ ValueType.any → V.pack_any v ≡ v

-- `Equals` is reflexive.
abbrev pub EqualsLaw : Values → Type 0
EqualsLaw V = (v : V.Value) → V.equals v v ≡ true

-- `IsNull` holds of values of type `Null` alone.
abbrev pub NullLaw : Values → Type 0
NullLaw V = (v : V.Value) → V.is_null v ≡ true → V.type_of v ≡ ValueType.null

pub record ValueLaws (V : Values) : Type 0 where
  pub objects : ObjectLaws V
  pub arrays : ArrayLaws V
  pub packing : PackLaw V
  pub equality : EqualsLaw V
  pub nulls : NullLaw V
