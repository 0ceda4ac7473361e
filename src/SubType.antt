-- ===== src/SubType.antt =====
-- subtype.go: the dispatch over the implementations of `SubTypeFunctions`.
pub mod Interface
pub mod Number
pub mod Text
pub mod Holder
use jsonot.Base.{
  ℕ, zero, suc, ◌+◌, ◌-◌, ◌*◌, ◌≤◌, ◌<◌, min, max, String, ◌≡◌, refl, sym, ap, ◌∙◌, ◌≢◌, ◌↔◌, ◌⊎◌,
  inl, inr, Bool, true, false, not, ◌&&◌, ◌||◌, Option, none, some, List, [], ◌∷◌, ◌++◌, map, arith,
  ltb, leb, ◌==◌, if◌then◌else◌, ltb→lt, lt→ltb, leb→le, ==_iff, Bool-cases, Option-cases,
  is_present, is_absent, length, get_elem?, set, take, drop, is_nil, insert_at, delete_at,
  length-append, take-append-drop, length-take, length-drop, length-set, get_elem?-set_self,
  length-insert_at, length-delete_at, lt-length_of_get_elem?, ℤ, pos, negsuc, pos_part, neg_part,
  neg, ◌+ℤ◌, ◌-ℤ◌, ltb_ℤ, leb_ℤ, eq_ℤ, int_bound, wrap, add_int, sub_int, neg_int, InRange, eq_ℤ→eq,
  eq_ℤ_refl, wrap_of_InRange, add_int-pos, sub_int-pos, neg_int-neg_int, Bytes, lit, str_eq,
  str_eq→eq, str_eq_refl, str_eq_iff, ErrCode, no_error, invalid_parameter, invalid_operation,
  bad_path, Error, coded, plain, Result, ok, err, panic, ◌>>=◌, ◌>>◌, fail, must, must_get, foreign,
  is_ok, >>=-eq-ok,
}
use jsonot.Value.{Values}
use jsonot.Operator.{
  SubType, SubTypeFunctions, number_add_functions, text_functions, client_functions, Operator,
}
use jsonot.Path.{DocPath}
use Interface.{TransformSide, Clients}
use Number.{number_invert, number_merge, number_transform, number_apply}
use Text.{text_invert}
use Text.Functions.{text_merge, text_transform, text_apply}

module _ (V : Values) (C : Clients V) where
  open V use {Value}

  -- `f.Invert`
  unfoldable pub invert_by : SubTypeFunctions → SubType → DocPath → Value → Result (Operator Value)
  unfolding number_invert text_invert
  invert_by number_add_functions t p v = number_invert V t v
  invert_by text_functions t p v = text_invert V t v
  invert_by (client_functions n) t p v = C.client_invert n t p v

  -- `f.Merge`
  unfoldable pub merge_by :
      SubTypeFunctions → Value → Operator Value → Result (Option (Operator Value))
  unfolding number_merge text_merge
  merge_by number_add_functions v o = number_merge V v o
  merge_by text_functions v o = text_merge V v o
  merge_by (client_functions n) v o = ok (C.client_merge n v o)

  -- `f.Transform`
  unfoldable pub transform_by :
      SubTypeFunctions → Value → Value → TransformSide → Result (List Value)
  unfolding number_transform text_transform
  transform_by number_add_functions v w s = number_transform V v w s
  transform_by text_functions v w s = text_transform V v w s
  transform_by (client_functions n) v w s = C.client_transform n v w s

  -- `f.Apply`
  unfoldable pub apply_by : SubTypeFunctions → Option Value → Value → Result (Option Value)
  unfolding number_apply text_apply
  apply_by number_add_functions v w = number_apply V v w
  apply_by text_functions v w = text_apply V v w
  apply_by (client_functions n) v w = C.client_apply n v w
