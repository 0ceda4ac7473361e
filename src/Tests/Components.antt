-- ===== src/Tests/Components.antt =====
-- Paths, components, operations and the table of sub types.
use jsonot.Component.{validation, merge}
use jsonot.Operation.{append}
use jsonot.Path.{equal, same_element}
use jsonot.Base.{
  false, some, ◌≡◌, refl, ◌↔◌, true, [], ◌∷◌, ◌++◌, arith, length, get_elem?, take, pos, lit,
  str_eq, ok,
}
use jsonot.Value.Tree.{same, tree, Json, null, num}
use jsonot.Operator.{list_move, object_insert, object_replace, client_functions}
use jsonot.Component.{Component, invert}
use jsonot.Component.Inverse.{merge-invert, invert-list_move}
use jsonot.Transform.{is_equivalent_to_noop}
use jsonot.Value.Tree.Laws.{tree-ValueLaws}
use jsonot.Operation.{compose, operation_validation}
use jsonot.Operation.Builders.{
  puts_value, build_object, run_object, new_object_builder, set_object_replace,
  build_object-puts_value,
}
use jsonot.Operation.Compose.{compose-validation}
use jsonot.Path.{element_from_index, element_from_key, is_prefix_of, max_common_path}
use jsonot.Path.Laws.{max_common_path_longest, parts, is_prefix_of_iff}
use jsonot.SubType.Holder.{get, run, new_holder, registering, unregistering, built_in-run}
use jsonot.Tests.Fixtures.{no_clients}

max_common_path_longest_example :
    let p = element_from_key (lit "a") ∷ element_from_index (pos 1) ∷ [] in
    let q = element_from_key (lit "a") ∷ element_from_index (pos 2) ∷ [] in
    (take (length (max_common_path p q)) p ≡ max_common_path p q)
    × (take (length (max_common_path p q)) q ≡ max_common_path p q)
    × (parts
          (get_elem? p (length (max_common_path p q)))
          (get_elem? q (length (max_common_path p q)))
        ≡ true)
max_common_path_longest_example =
    max_common_path_longest (element_from_key (lit "a") ∷ element_from_index (pos 1) ∷ [])
      (element_from_key (lit "a") ∷ element_from_index (pos 2) ∷ [])

is_prefix_of_iff_example :
    let p = element_from_key (lit "a") ∷ [] in
    let q = element_from_key (lit "a") ∷ element_from_index (pos 2) ∷ [] in
    (is_prefix_of p q ≡ true) ↔ (max_common_path p q ≡ p)
is_prefix_of_iff_example =
    is_prefix_of_iff (element_from_key (lit "a") ∷ [])
      (element_from_key (lit "a") ∷ element_from_index (pos 2) ∷ []) (refl, tt) (refl, (refl, tt))

abbrev replaced : Component Json
replaced = record {
  operator = object_replace null (num (pos 1));
  path = element_from_key (lit "a") ∷ [];
}

merge-invert_example :
    (d : Component Json) × (e : Component Json) × (invert tree no_clients replaced
      ≡ ok (d, replaced))
    × (merge tree no_clients replaced d ≡ ok (some e))
    × (is_equivalent_to_noop tree e ≡ true)
    × (e.path ≡ replaced.path)
merge-invert_example = merge-invert tree no_clients tree-ValueLaws.equality replaced tt

invert-list_move_example :
    invert tree no_clients
      (record { operator = list_move (pos 3); path = [] ++ element_from_index (pos 2) ∷ [] })
    ≡ ok (
      record { operator = list_move (pos 2); path = [] ++ element_from_index (pos 3) ∷ [] },
      record { operator = list_move (pos 3); path = [] ++ element_from_index (pos 3) ∷ [] },
    )
invert-list_move_example = invert-list_move tree no_clients [] 2 3 (omega arith) (omega arith)

compose-validation_example :
    operation_validation (
      record { operator = object_insert (num (pos 2)); path = element_from_key (lit "a") ∷ [] }
      ∷ [])
    ≡ ok tt
unfolding compose operation_validation same str_eq validation append equal same_element merge
compose-validation_example =
    compose-validation tree no_clients (λ n v o m h. cc)
      (record { operator = object_insert (num (pos 1)); path = element_from_key (lit "a") ∷ [] }
        ∷ [])
      (record {
        operator = object_replace (num (pos 2)) (num (pos 1));
        path = element_from_key (lit "a") ∷ [];
      }
        ∷ [])
      (record { operator = object_insert (num (pos 2)); path = element_from_key (lit "a") ∷ [] }
        ∷ [])
      refl refl refl

built_in-run_example :
    get
      (run new_holder
        (registering (lit "na") (client_functions 1) ∷ unregistering (lit "text") ∷ []))
      (lit "na")
    ≡ get new_holder (lit "na")
unfolding str_eq
built_in-run_example =
    built_in-run (registering (lit "na") (client_functions 1) ∷ unregistering (lit "text") ∷ [])
      new_holder (lit "na") refl

build_object-puts_value_example :
    puts_value
      (build_object (
        run_object
          (new_object_builder [])
          (set_object_replace (num (pos 1)) (num (pos 2)) ∷ []))).operator
    ≡ false
build_object-puts_value_example =
    build_object-puts_value [] (set_object_replace (num (pos 1)) (num (pos 2)) ∷ []) refl
