-- ===== src/Tests/Fixtures.antt =====
-- Values and components for the examples.
use jsonot.Base.{none, List, [], ◌∷◌, pos, lit, panic}
use jsonot.Value.Tree.{tree, Json, num, str, arr, obj, from_list, end, field}
use jsonot.SubType.Interface.{Clients}

-- No client has registered a sub type.
abbrev pub no_clients : Clients tree
no_clients = record {
  client_invert = λ n t p v. panic;
  client_merge = λ n v o. none;
  client_transform = λ n v w s. panic;
  client_apply = λ n v w. panic;
  client_validate_operand = λ n v. panic;
}

-- `[10, 20, 30]`
abbrev pub numbers : List Json
numbers = num (pos 10) ∷ num (pos 20) ∷ num (pos 30) ∷ []

abbrev pub numbers_doc : Json
numbers_doc = arr (from_list numbers)

-- `{"name": "x"}`
abbrev pub name_doc : Json
name_doc = obj (field (lit "name") (str (lit "x")) end)
