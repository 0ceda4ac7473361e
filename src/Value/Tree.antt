-- ===== src/Value/Tree.antt =====
-- An implementation of `Value`: JSON trees, where objects are lists of fields and numbers are
-- integers. It runs the examples.
pub mod Laws
use jsonot.Base.{
  ℕ, ◌≡◌, refl, ap, Bool, true, false, not, ◌&&◌, ◌||◌, Option, none, some, List, [], ◌∷◌, map,
  arith, if◌then◌else◌, is_present, length, ℤ, pos, neg, ◌+ℤ◌, ◌-ℤ◌, eq_ℤ, eq_ℤ_refl, Bytes, str_eq,
  str_eq_refl, str_eq_iff,
}
use jsonot.Value.{Values, ValueType, Any, of_nil, of_bool, of_int, of_float, of_str, of_raw}
use jsonot.Value.Laws.{ObjectLaws, ArrayLaws, ValueLaws}

mutual
  pub data Json : Type 0 where
    null : Json
    boolean : Bool → Json
    num : ℤ → Json
    str : Bytes → Json
    arr : Items → Json
    obj : Fields → Json

  pub data Items : Type 0 where
    nil : Items
    cons : Json → Items → Items

  pub data Fields : Type 0 where
    end : Fields
    field : Bytes → Json → Fields → Fields

abbrev pub to_list : Items → List Json
to_list nil = []
to_list (cons x xs) = x ∷ to_list xs

abbrev pub from_list : List Json → Items
from_list [] = nil
from_list (x ∷ xs) = cons x (from_list xs)

pub to_list-from_list : (xs : List Json) → to_list (from_list xs) ≡ xs
to_list-from_list [] = refl
to_list-from_list (x ∷ xs) = ap (x ∷◌) (to_list-from_list xs)

abbrev pub to_fields : Fields → List (Bytes × Json)
to_fields end = []
to_fields (field k v fs) = (k, v) ∷ to_fields fs

abbrev pub find : Fields → Bytes → Option Json
find end k = none
find (field j v fs) k = if str_eq j k then some v else find fs k

abbrev pub set_field : Fields → Bytes → Json → Fields
set_field end k x = field k x end
set_field (field j v fs) k x =
    let rest = set_field fs k x in if str_eq j k then field j x fs else field j v rest

abbrev pub delete_field : Fields → Bytes → Fields
delete_field end k = end
delete_field (field j v fs) k =
    let rest = delete_field fs k in if str_eq j k then rest else field j v rest

unfoldable mutual
  pub same : Json → Json → Bool
  same null null = true
  same (boolean a) (boolean b) = (a && b) || (not a && not b)
  same (num m) (num n) = eq_ℤ m n
  same (str s) (str t) = str_eq s t
  same (arr xs) (arr ys) = same_items xs ys
  same (obj fs) (obj gs) = same_fields fs gs
  same _ _ = false

  pub same_items : Items → Items → Bool
  same_items nil nil = true
  same_items (cons x xs) (cons y ys) = same x y && same_items xs ys
  same_items _ _ = false

  pub same_fields : Fields → Fields → Bool
  same_fields end end = true
  same_fields (field j v fs) (field k w gs) = str_eq j k && (same v w && same_fields fs gs)
  same_fields _ _ = false

abbrev pub type_of : Json → ValueType
type_of null = ValueType.null
type_of (boolean b) = ValueType.bool
type_of (num n) = ValueType.numeric
type_of (str s) = ValueType.string
type_of (arr xs) = ValueType.array
type_of (obj fs) = ValueType.object

abbrev pub has_type : ValueType → Json → Bool
has_type ValueType.null null = true
has_type ValueType.bool (boolean b) = true
has_type ValueType.numeric (num n) = true
has_type ValueType.string (str s) = true
has_type ValueType.array (arr xs) = true
has_type ValueType.object (obj fs) = true
has_type _ _ = false

abbrev pub get_key : Json → Bytes → Option Json
get_key (obj fs) k = find fs k
get_key _ k = none

abbrev pub get_array : Json → Option (List Json)
get_array (arr xs) = some (to_list xs)
get_array _ = none

abbrev pub get_map : Json → Option (List (Bytes × Json))
get_map (obj fs) = some (to_fields fs)
get_map _ = none

abbrev pub get_int : Json → Option ℤ
get_int (num n) = some n
get_int _ = none

abbrev pub get_string : Json → Option Bytes
get_string (str s) = some s
get_string _ = none

abbrev pub bind_option : {A B : Type 0} → Option A → (A → Option B) → Option B
bind_option none f = none
bind_option (some a) f = f a

abbrev pub set_key : Json → Bytes → Json → Option Json
set_key (obj fs) k x = some (obj (set_field fs k x))
set_key _ k x = none

abbrev pub delete_key : Json → Bytes → Option Json
delete_key (obj fs) k = some (obj (delete_field fs k))
delete_key v k = some v

abbrev pub size : Json → ℕ
size (obj fs) = length (to_fields fs)
size (arr xs) = length (to_list xs)
size _ = 0

abbrev pub from_any : Any Json ℤ → Json
from_any of_nil = null
from_any (of_bool b) = boolean b
from_any (of_int n) = num n
from_any (of_float n) = num n
from_any (of_str s) = str s
from_any (of_raw v) = v

abbrev pub fields_of : List (Bytes × Any Json ℤ) → Fields
fields_of [] = end
fields_of ((k, a) ∷ m) = field k (from_any a) (fields_of m)

abbrev pub tree : Values
tree = record {
  Value = Json;
  Float = ℤ;
  type_of = type_of;
  is_bool = has_type ValueType.bool;
  is_null = has_type ValueType.null;
  is_numeric = has_type ValueType.numeric;
  is_int = has_type ValueType.numeric;
  is_string = has_type ValueType.string;
  is_array = has_type ValueType.array;
  is_object = has_type ValueType.object;
  pack_any = λ v. v;
  get_key = get_key;
  get_string_key = λ v k. bind_option (get_key v k) get_string;
  get_int_key = λ v k. bind_option (get_key v k) get_int;
  get_array = get_array;
  get_map = get_map;
  get_numeric = get_int;
  get_int = get_int;
  get_string = get_string;
  update_array = λ v xs. some (arr (from_list xs));
  update_object = λ v w. some w;
  set_key = set_key;
  delete_key = delete_key;
  has_key = λ v k. is_present (get_key v k);
  size = size;
  equals = same;
  identical = λ v w. false;
  from_primitive_int = num;
  from_primitive_float = num;
  from_primitive_str = str;
  from_any = from_any;
  from_any_list = λ xs. arr (from_list (map from_any xs));
  from_any_map = λ m. obj (fields_of m);
  from_array = λ xs. arr (from_list xs);
  float_zero = pos 0;
  float_add = λ a b. a +ℤ b;
  float_sub = λ a b. a -ℤ b;
  float_neg = neg;
  float_eq = eq_ℤ;
}
