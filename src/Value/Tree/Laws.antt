-- ===== src/Value/Tree/Laws.antt =====
-- The trees have the laws of `Value.Laws`, so that these can hold.
use jsonot.Base.{
  ◌≡◌, refl, true, false, none, some, List, arith, if◌then◌else◌, eq_ℤ_refl, Bytes, str_eq,
  str_eq_refl, str_eq_iff,
}
use jsonot.Value.{ValueType}
use jsonot.Value.Laws.{ObjectLaws, ArrayLaws, ValueLaws}
use jsonot.Value.Tree.{
  Json, null, boolean, num, str, arr, obj, Items, nil, cons, Fields, end, field, same, same_items,
  same_fields, to_list-from_list, to_list, from_list, find, set_field, delete_field, type_of,
  has_type, get_key, get_array, set_key, delete_key, tree,
}

find-set_field :
    (fs : Fields) (k j : Bytes) (x : Json)
    → find (set_field fs k x) j ≡ (if str_eq k j then some x else find fs j)
find-set_field end k j x = refl
find-set_field (field i v fs) k j x =
    ground (arith, find-set_field fs k j x, str_eq_iff i k, str_eq_iff i j, str_eq_iff k j)

find-delete_field :
    (fs : Fields) (k j : Bytes)
    → find (delete_field fs k) j ≡ (if str_eq k j then none else find fs j)
find-delete_field end k j = ground arith
find-delete_field (field i v fs) k j =
    ground (arith, find-delete_field fs k j, str_eq_iff i k, str_eq_iff i j, str_eq_iff k j)

set_key_some :
    (v x : Json) (k : Bytes) → type_of v ≡ ValueType.object → (w : Json) × (set_key v k x ≡ some w)
set_key_some (obj fs) x k h = (obj (set_field fs k x), refl)
set_key_some v x k h = absurd (cc)

set_key_type : (v x w : Json) (k : Bytes) → set_key v k x ≡ some w → type_of w ≡ ValueType.object
set_key_type (obj fs) x w k h = ground arith
set_key_type v x w k h = ground arith

get_key-set_key :
    (v x w : Json) (k j : Bytes)
    → set_key v k x ≡ some w
    → get_key w j ≡ (if str_eq k j then some x else get_key v j)
get_key-set_key (obj fs) x w k j h = ground (arith, find-set_field fs k j x)
get_key-set_key v x w k j h = ground arith

get_key-delete_key :
    (v w : Json) (k j : Bytes)
    → type_of v ≡ ValueType.object
    → delete_key v k ≡ some w
    → get_key w j ≡ (if str_eq k j then none else get_key v j)
get_key-delete_key (obj fs) w k j t h = ground (arith, find-delete_field fs k j)
get_key-delete_key v w k j t h = absurd (cc)

delete_key_type :
    (v w : Json) (k : Bytes)
    → type_of v ≡ ValueType.object
    → delete_key v k ≡ some w
    → type_of w ≡ ValueType.object
delete_key_type (obj fs) w k t h = ground arith
delete_key_type v w k t h = absurd (cc)

delete_key_some :
    (v : Json) (k : Bytes) → type_of v ≡ ValueType.object → (w : Json) × (delete_key v k ≡ some w)
delete_key_some (obj fs) k h = (obj (delete_field fs k), refl)
delete_key_some v k h = (v, ground arith)

get_array_some :
    (v : Json) → type_of v ≡ ValueType.array → (xs : List Json) × (get_array v ≡ some xs)
get_array_some (arr xs) h = (to_list xs, refl)
get_array_some v h = absurd (cc)

tree-ObjectLaws : ObjectLaws tree
tree-ObjectLaws = record {
  set_key_some = set_key_some;
  set_key_type = set_key_type;
  get_key-set_key = get_key-set_key;
  delete_key_some = delete_key_some;
  delete_key_type = delete_key_type;
  get_key-delete_key = get_key-delete_key;
  update_object_lem = λ v w h k. refl;
}

tree-ArrayLaws : ArrayLaws tree
tree-ArrayLaws = record {
  get_array_some = get_array_some;
  update_array_some = λ v xs h. (arr (from_list xs), refl);
  update_array_type = λ v w xs h. ground arith;
  get_array-update_array = λ v w xs h. ground (arith, to_list-from_list xs);
}

mutual
  unfolding same

  same_refl : (v : Json) → same v v ≡ true
  same_refl null = refl
  same_refl (boolean true) = refl
  same_refl (boolean false) = refl
  same_refl (num n) = eq_ℤ_refl n
  same_refl (str s) = str_eq_refl s
  same_refl (arr xs) = same_items_refl xs
  same_refl (obj fs) = same_fields_refl fs

  same_items_refl : (xs : Items) → same_items xs xs ≡ true
  same_items_refl nil = refl
  same_items_refl (cons x xs) = rw (same_refl x) (same_items_refl xs)

  same_fields_refl : (fs : Fields) → same_fields fs fs ≡ true
  same_fields_refl end = refl
  same_fields_refl (field k v fs) = rw (str_eq_refl k, same_refl v) (same_fields_refl fs)

is_null→null : (v : Json) → has_type ValueType.null v ≡ true → type_of v ≡ ValueType.null
is_null→null null h = refl
is_null→null v h = ground arith

pub tree-ValueLaws : ValueLaws tree
tree-ValueLaws = record {
  objects = tree-ObjectLaws;
  arrays = tree-ArrayLaws;
  packing = λ v h. refl;
  equality = same_refl;
  nulls = is_null→null;
}
