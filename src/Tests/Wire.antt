-- ===== src/Tests/Wire.antt =====
-- JSON texts and their trees, for the examples of the server: a table of the texts that they use.
use jsonot.Base.{
  ℕ, suc, max, Option, none, some, List, [], ◌∷◌, if◌then◌else◌, pos, Bytes, lit, str_eq,
}
use jsonot.Value.Tree.{tree, Json, Items, arr, obj, num, str, nil, cons, end, field, same}
use jsonot.SubType.Holder.{new_holder}
use jsonot.Sharedb.Results.{done}
use jsonot.Sharedb.Server.{Setup}

-- `[{"p":[k],"oi":n}]`
abbrev pub insert_value : Bytes → ℕ → Json
insert_value k n =
    arr (
      cons (obj (field (lit "p") (arr (cons (str k) nil)) (field (lit "oi") (num (pos n)) end)))
        nil)

-- `[{"p":[k],"od":n}]`
abbrev pub delete_value : Bytes → ℕ → Json
delete_value k n =
    arr (
      cons (obj (field (lit "p") (arr (cons (str k) nil)) (field (lit "od") (num (pos n)) end)))
        nil)

abbrev pub texts : List (Bytes × Json)
texts =
    (lit "{}", obj end)
    ∷ (lit "[]", arr nil)
    ∷ (lit "{a:1}", obj (field (lit "a") (num (pos 1)) end))
    ∷ (lit "{a:1,b:2}", obj (field (lit "a") (num (pos 1)) (field (lit "b") (num (pos 2)) end)))
    ∷ (lit "{b:2}", obj (field (lit "b") (num (pos 2)) end))
    ∷ (lit "[{p:[a],oi:1}]", insert_value (lit "a") 1)
    ∷ (lit "[{p:[b],oi:2}]", insert_value (lit "b") 2)
    ∷ (lit "[{p:[a],od:1}]", delete_value (lit "a") 1)
    ∷ (lit "[{p:[b],od:2}]", delete_value (lit "b") 2)
    ∷ []

abbrev read_text : List (Bytes × Json) → Bytes → Option Json
read_text [] raw = none
read_text ((t, v) ∷ ts) raw = if str_eq t raw then some v else read_text ts raw

unfoldable write_text : List (Bytes × Json) → Json → Bytes
unfolding same
write_text [] w = []
write_text ((t, v) ∷ ts) w = if same v w then t else write_text ts w

abbrev mutual
  pub nesting : Json → ℕ
  nesting (arr xs) = suc (nesting_items xs)
  nesting _ = 0

  pub nesting_items : Items → ℕ
  nesting_items nil = 0
  nesting_items (cons x xs) = max (nesting x) (nesting_items xs)

unfoldable pub setup : Setup tree
unfolding write_text same
setup = record {
  lock = λ d. done tt;
  holder = new_holder;
  max_rebase_gap = pos 2;
  unmarshal = read_text texts;
  raw_message = write_text texts;
  GoValue = Json;
  json_unmarshal = read_text texts;
  deep_equal = same;
  nesting = nesting;
}
