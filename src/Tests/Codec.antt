-- ===== src/Tests/Codec.antt =====
-- Reading back what is written, on the trees of `Value.Tree`.
use jsonot.Base.{[], ◌∷◌, pos, lit}
use mathlib.Core.Option
use jsonot.Value.Tree.{Json, num, str}
use jsonot.Operator.{object_replace, list_insert}
use jsonot.Path.{element_from_key, element_from_index}
use jsonot.Operation.{Operation}

abbrev written : Operation Json
written =
    record {
      operator = object_replace (num (pos 2)) (str (lit "x"));
      path =
          element_from_key (lit "a") ∷ element_from_index (pos 3) ∷ element_from_key (lit "b") ∷ [];
    }
    ∷ record { operator = list_insert (num (pos 2)); path = element_from_index (pos 0) ∷ [] }
    ∷ []
