-- ===== src/Tests/Documents.antt =====
-- Convergence and undoing on documents.
use mathlib.Core.List.{Perm}
use jsonot.Apply.Arrays.{apply_list_move}
use jsonot.Apply.Permutes.{apply_list_move-Perm}
use jsonot.Apply.First.{apply-replace_first}
use jsonot.Operator.{list_replace}
use jsonot.Base.{◌≡◌, refl, none, some, List, [], ◌∷◌, arith, pos, lit, str_eq, ok}
use jsonot.Value.{ValueType}
use jsonot.Value.Tree.Laws.{tree-ValueLaws}
use jsonot.Value.Tree.{same, tree, Json, null, num, str, arr, obj, from_list, end, field}
use jsonot.Operator.{list_delete, object_insert, object_replace, object_delete}
use jsonot.Component.{Component, invert}
use jsonot.Path.{element_from_index, element_from_key}
use jsonot.Apply.{apply_here}
use jsonot.Apply.Route.{route_get, route_set}
use jsonot.Apply.Route.Laws.{route_get-route_set}
use jsonot.Apply.Undo.Arrays.{apply-invert_array}
use jsonot.Apply.Undo.Objects.{apply-invert_object, SameKeys}
use jsonot.Engine.{apply_components}
use jsonot.Transform.Matrix.{transform}
use jsonot.Transform.Converge.Arrays.{inserting, deleting, component}
use jsonot.Transform.Converge.Objects.{at_key}
use jsonot.Transform.Converge.Documents.{transform_converges}
use jsonot.Transform.Converge.Writes.{Converges}
use jsonot.Transform.Converge.Keys.{object-Converges, delete_replace_diverges}
use jsonot.Tests.Fixtures.{no_clients, numbers, numbers_doc, name_doc}

transform_converges_example :
    (ls rs : List (Component Json)) × (transform tree no_clients
        (component tree (inserting 1 null) ∷ [])
        (component tree (deleting 0 (num (pos 10))) ∷ [])
      ≡ ok (record { left_op = ls; right_op = some rs }))
    × (w u : Json) × (apply_components tree no_clients numbers_doc
          (component tree (deleting 0 (num (pos 10))) ∷ ls)
        ≡ ok w)
    × (apply_components tree no_clients numbers_doc (component tree (inserting 1 null) ∷ rs) ≡ ok u)
    × (zs : List Json) × (tree.get_array w ≡ some zs)
    × (tree.get_array u ≡ some zs)
transform_converges_example =
    transform_converges tree tree-ValueLaws no_clients (inserting 1 null)
      (deleting 0 (num (pos 10))) numbers_doc numbers refl refl (omega arith) refl (omega arith)

object-Converges_example :
    Converges tree tree-ValueLaws no_clients
      (lit "name")
      (object_replace (str (lit "a")) (str (lit "x")))
      (object_delete (str (lit "x")))
      name_doc
unfolding same str_eq
object-Converges_example =
    object-Converges tree tree-ValueLaws no_clients (lit "name") name_doc
      (object_replace (str (lit "a")) (str (lit "x"))) (object_delete (str (lit "x"))) refl refl
      refl refl tt (λ e. e)

delete_replace_diverges_example :
    (w u : Json) × (transform tree no_clients
        (at_key (lit "name") (object_delete (str (lit "x"))) ∷ [])
        (at_key (lit "name") (object_replace (str (lit "a")) (str (lit "x"))) ∷ [])
      ≡ ok (record { left_op = []; right_op = some [] }))
    × (apply_components tree no_clients name_doc
          (at_key (lit "name") (object_replace (str (lit "a")) (str (lit "x"))) ∷ [])
        ≡ ok w)
    × (apply_components tree no_clients name_doc
          (at_key (lit "name") (object_delete (str (lit "x"))) ∷ [])
        ≡ ok u)
    × (tree.get_key w (lit "name") ≡ some (str (lit "a")))
    × (tree.get_key u (lit "name") ≡ none)
unfolding same str_eq
delete_replace_diverges_example =
    delete_replace_diverges tree tree-ValueLaws no_clients (lit "name") name_doc (str (lit "a"))
      (str (lit "x")) refl refl refl

apply-invert_array_example :
    (w u : Json) × (d : Component Json) × (apply_here tree no_clients numbers_doc
        (element_from_index (pos 1) ∷ [])
        (list_delete (num (pos 20)))
      ≡ ok w)
    × (invert tree no_clients
          (record { operator = list_delete (num (pos 20)); path = element_from_index (pos 1) ∷ [] })
        ≡ ok (
          d,
          record { operator = list_delete (num (pos 20)); path = element_from_index (pos 1) ∷ [] },
        ))
    × (apply_here tree no_clients w d.path d.operator ≡ ok u)
    × (tree.get_array u ≡ some numbers)
apply-invert_array_example =
    apply-invert_array tree tree-ValueLaws no_clients numbers_doc numbers 1
      (list_delete (num (pos 20))) refl refl refl

apply-invert_object_example :
    (w u : Json) × (d : Component Json) × (apply_here tree no_clients name_doc
        (element_from_key (lit "age") ∷ [])
        (object_insert null)
      ≡ ok w)
    × (invert tree no_clients
          (record { operator = object_insert null; path = element_from_key (lit "age") ∷ [] })
        ≡ ok
            (d, record { operator = object_insert null; path = element_from_key (lit "age") ∷ [] }))
    × (apply_here tree no_clients w d.path d.operator ≡ ok u)
    × SameKeys tree tree-ValueLaws no_clients u name_doc
unfolding str_eq
apply-invert_object_example =
    apply-invert_object tree tree-ValueLaws no_clients name_doc (lit "age") (object_insert null)
      refl refl

route_get-route_set_example :
    route_get tree
      (obj (field (lit "list") (arr (from_list (str (lit "y") ∷ num (pos 2) ∷ []))) end))
      (element_from_key (lit "list") ∷ element_from_index (pos 0) ∷ [])
      ValueType.object
    ≡ ok (some (str (lit "y")))
unfolding route_set str_eq
route_get-route_set_example =
    route_get-route_set tree tree-ValueLaws
      (element_from_key (lit "list") ∷ element_from_index (pos 0) ∷ [])
      (obj (field (lit "list") (arr (from_list (num (pos 1) ∷ num (pos 2) ∷ []))) end))
      (str (lit "y"))
      (obj (field (lit "list") (arr (from_list (str (lit "y") ∷ num (pos 2) ∷ []))) end))
      ValueType.object refl (λ e. cc) refl

apply_list_move-Perm_example :
    (ys : List Json) × (apply_list_move tree numbers (pos 0) 2 ≡ ok ys) × Perm ys numbers
apply_list_move-Perm_example = apply_list_move-Perm tree numbers 0 2

apply-replace_first_example :
    (w : Json) × (apply_here tree no_clients numbers_doc
        (element_from_index (pos 0) ∷ [])
        (list_replace null (num (pos 10)))
      ≡ ok w)
    × (tree.get_array w ≡ some numbers)
apply-replace_first_example =
    apply-replace_first tree tree-ValueLaws no_clients numbers_doc (num (pos 10)) null
      (num (pos 20) ∷ num (pos 30) ∷ []) refl refl
