-- ===== src/Tests/Difference.antt =====
-- The difference of two objects: `{"a": "x", "b": true}` and `{"b": false, "c": "y"}`.
use jsonot.Base.{
  ℕ, suc, ◌≡◌, ◌≢◌, ◌<◌, refl, max, true, false, none, some, List, [], arith, Bytes, lit, str_eq,
  ok, Bool-cases, inl, inr,
}
use jsonot.Value.Laws.{find_field}
use jsonot.Value.Tree.{
  same, tree, Json, boolean, str, arr, obj, Items, nil, cons, Fields, end, field, find, to_list,
  to_fields,
}
use jsonot.Value.Tree.Laws.{tree-ValueLaws}
use jsonot.SubType.Holder.{new_holder}
use jsonot.Operation.{Operation}
use jsonot.Operation.Fuel.{NestBelow}
use jsonot.Engine.{apply}
use jsonot.Diff.{diff, diff_into, add_keys}
use jsonot.Diff.Fuel.{FieldsBelow, diff_into-some}
use jsonot.Diff.Changes.{same_value}
use jsonot.Diff.Roundtrip.{MapLaw, apply-diff}
use jsonot.Tests.Fixtures.{no_clients}

abbrev mutual
  height : Json → ℕ
  height (arr xs) = suc (height_items xs)
  height (obj fs) = suc (height_fields fs)
  height _ = 0

  height_items : Items → ℕ
  height_items nil = 0
  height_items (cons x xs) = max (height x) (height_items xs)

  height_fields : Fields → ℕ
  height_fields end = 0
  height_fields (field k x fs) = max (height x) (height_fields fs)

items-below : (xs : Items) (n : ℕ) → height_items xs < n → NestBelow height n (to_list xs)
items-below nil n h = tt
items-below (cons x xs) n h = (omega arith, items-below xs n (omega arith))

fields-below : (fs : Fields) (n : ℕ) → height_fields fs < n → FieldsBelow height n (to_fields fs)
fields-below end n h = tt
fields-below (field k x fs) n h = (omega arith, fields-below fs n (omega arith))

array_height_lem :
    (v : Json) (vs : List Json) → tree.get_array v ≡ some vs → NestBelow height (height v) vs
array_height_lem (arr xs) vs e =
    let e' : to_list xs ≡ vs = cc in
    rw (← e') (items-below xs (suc (height_items xs)) (omega arith))
array_height_lem _ vs e = absurd cc

map_height_lem :
    (v : Json) (m : List (Bytes × Json)) → tree.get_map v ≡ some m → FieldsBelow height (height v) m
map_height_lem (obj fs) m e =
    let e' : to_fields fs ≡ m = cc in
    rw (← e') (fields-below fs (suc (height_fields fs)) (omega arith))
map_height_lem _ m e = absurd cc

find_field-to_fields : (k : Bytes) (fs : Fields) → find_field k (to_fields fs) ≡ find fs k
find_field-to_fields k end = refl
find_field-to_fields k (field j v fs) = elim (Bool-cases (str_eq j k)) [
  | inl here ↦ rw here refl
  | inr there ↦ rw there (find_field-to_fields k fs)
]

tree-MapLaw : MapLaw tree
tree-MapLaw (obj fs) m k e = let e' : to_fields fs ≡ m = cc in rw (← e') (find_field-to_fields k fs)
tree-MapLaw _ m k e = absurd cc

abbrev older : Fields
older = field (lit "a") (str (lit "x")) (field (lit "b") (boolean true) end)

abbrev newer : Fields
newer = field (lit "b") (boolean false) (field (lit "c") (str (lit "y")) end)

apply-diff_example :
    (o : Operation Json) × (u : Json) × (diff tree no_clients new_holder 2 (obj older) (obj newer)
      ≡ some (ok o))
    × (apply tree no_clients (obj older) o ≡ ok u)
    × ((j : Bytes) → same_value tree (tree.get_key u j) (tree.get_key (obj newer) j) ≡ true)
unfolding same str_eq add_keys
apply-diff_example =
    apply-diff tree tree-ValueLaws no_clients tree-MapLaw new_holder 0 (obj older) (obj newer)
      (to_fields older) (to_fields newer) refl refl refl refl refl refl refl refl

older_has_diff : diff_into tree no_clients new_holder 2 [] (obj older) (obj newer) [] ≢ none
older_has_diff =
    diff_into-some tree no_clients new_holder height
      (record { array_height = array_height_lem; map_height = map_height_lem }) 2 [] (obj older)
      (obj newer) [] (omega arith)
