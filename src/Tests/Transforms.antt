-- ===== src/Tests/Transforms.antt =====
-- Operations of several components.
use jsonot.Base.{ℕ, Bytes, ◌≡◌, refl, some, [], ◌∷◌, pos, lit, ok, str_eq, sub_int}
use jsonot.Value.Tree.{tree, Json, num}
use jsonot.Operator.{object_insert}
use jsonot.Component.{Component, operate_path_len}
use jsonot.Path.{element_from_key, max_common_path}
use jsonot.Transform.Matrix.{transform_matrix}
use jsonot.Transform.Loss.{transform_matrix_loses}
use jsonot.Tests.Fixtures.{no_clients}

-- An insertion below a key.
abbrev nested : Bytes → Bytes → ℕ → Component Json
nested k j n = record {
  operator = object_insert (num (pos n));
  path = element_from_key k ∷ element_from_key j ∷ [];
}

-- Two insertions over a third one.
transform_matrix_loses_example :
    transform_matrix tree no_clients
      (nested (lit "a") (lit "x") 1 ∷ nested (lit "b") (lit "x") 2 ∷ [])
      (nested (lit "c") (lit "x") 3 ∷ [])
    ≡ ok (record {
      left_op = nested (lit "c") (lit "x") 3 ∷ [];
      right_op = some (nested (lit "c") (lit "x") 3 ∷ []);
    })
unfolding operate_path_len max_common_path str_eq sub_int
transform_matrix_loses_example =
    transform_matrix_loses tree no_clients (nested (lit "a") (lit "x") 1)
      (nested (lit "c") (lit "x") 3) (nested (lit "b") (lit "x") 2 ∷ []) [] refl refl
