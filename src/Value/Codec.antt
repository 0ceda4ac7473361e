-- ===== src/Value/Codec.antt =====
-- What encoding and decoding rely on of an implementation of `Value`, and of its factory.
use mathlib.Core.Option
use jsonot.Base.{
  ◌≡◌, Bool, true, false, ◌&&◌, ◌||◌, none, some, List, [], ◌∷◌, map, length, leb, ltb, ◌==◌, ℤ,
  pos, negsuc, Bytes,
}
use jsonot.Value.{Values, Any, of_str, of_int, of_raw}
use jsonot.Value.Laws.{find_field}

-- Whether a string begins as a number does. `SonicValue.IsInt` reads a number from a string.
abbrev pub is_number_like : Bytes → Bool
is_number_like [] = false
is_number_like (c ∷ s) = (leb 48 c && leb c 57) || ((c == 43) || ((c == 45) || (c == 46)))

-- The integers that a float64 holds exactly, as which `AJSONValue` keeps a number.
abbrev pub is_exact : ℤ → Bool
is_exact (pos n) = leb n 9007199254740992
is_exact (negsuc n) = ltb n 9007199254740992

-- What the implementations of `Value` do alike with the maps and slices of `ToValue`: an object with
-- the map's fields, an array of the slice's elements, scalars of their kinds. `SonicValue.HasKey`
-- does not see a member that is null, so `HasKey` is told apart only for members that are not.
pub record CodecLaws (V : Values) : Type 0 where
  pub map_is_object :
      (m : List (Bytes × Any V.Value V.Float)) → V.is_object (V.from_any_map m) ≡ true
  pub get_key-map :
      (m : List (Bytes × Any V.Value V.Float)) (k : Bytes)
      → V.get_key (V.from_any_map m) k ≡ Option.map V.from_any (find_field k m)
  pub has_key-present :
      (v w : V.Value) (k : Bytes)
      → V.get_key v k ≡ some w
      → V.is_null w ≡ false
      → V.has_key v k ≡ true
  pub has_key-absent : (v : V.Value) (k : Bytes) → V.get_key v k ≡ none → V.has_key v k ≡ false
  pub size-map : (m : List (Bytes × Any V.Value V.Float)) → V.size (V.from_any_map m) ≡ length m
  pub raw : (v : V.Value) → V.from_any (of_raw v) ≡ v
  pub get_array-list :
      (xs : List (Any V.Value V.Float))
      → V.get_array (V.from_any_list xs) ≡ some (map V.from_any xs)
  pub string_is_string : (s : Bytes) → V.is_string (V.from_any (of_str s)) ≡ true
  pub string_is_int :
      (s : Bytes) → is_number_like s ≡ false → V.is_int (V.from_any (of_str s)) ≡ false
  pub get_string_lem : (s : Bytes) → V.get_string (V.from_any (of_str s)) ≡ some s
  pub int_is_string : (i : ℤ) → V.is_string (V.from_any (of_int i)) ≡ false
  pub int_is_int : (i : ℤ) → is_exact i ≡ true → V.is_int (V.from_any (of_int i)) ≡ true
  pub map_is_array :
      (m : List (Bytes × Any V.Value V.Float)) → V.is_array (V.from_any_map m) ≡ false
  pub array_is_array : (xs : List V.Value) → V.is_array (V.from_array xs) ≡ true
  pub get_array-array : (xs : List V.Value) → V.get_array (V.from_array xs) ≡ some xs
  pub get_int_lem : (i : ℤ) → is_exact i ≡ true → V.get_int (V.from_any (of_int i)) ≡ some i
