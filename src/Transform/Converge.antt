-- ===== src/Transform/Converge.antt =====
-- transform.go on two concurrent operators of one array: what each becomes over the other.
pub mod Arrays
pub mod Objects
pub mod Writes
pub mod Keys
pub mod Edits
pub mod Documents
use jsonot.Base.{
  ℕ, zero, suc, ◌+◌, ◌-◌, ◌*◌, ◌≤◌, ◌<◌, min, max, String, ◌≡◌, refl, sym, ap, ◌∙◌, ◌≢◌, ◌↔◌, ◌⊎◌,
  inl, inr, Bool, true, false, not, ◌&&◌, ◌||◌, Option, none, some, List, [], ◌∷◌, ◌++◌, map, arith,
  ltb, leb, ◌==◌, if◌then◌else◌, ltb→lt, lt→ltb, leb→le, ==_iff, Bool-cases, Option-cases,
  is_present, is_absent, length, get_elem?, set, take, drop, is_nil, insert_at, delete_at,
  length-append, take-append-drop, length-take, length-drop, length-set, get_elem?-set_self,
  length-insert_at, length-delete_at, lt-length_of_get_elem?, ℤ, pos, negsuc, pos_part, neg_part,
  neg, ◌+ℤ◌, ◌-ℤ◌, ltb_ℤ, leb_ℤ, eq_ℤ, int_bound, wrap, add_int, sub_int, neg_int, InRange, eq_ℤ→eq,
  eq_ℤ_refl, wrap_of_InRange, add_int-pos, sub_int-pos, neg_int-neg_int, Bytes, lit, str_eq,
  str_eq→eq, str_eq_refl, str_eq_iff, ErrCode, no_error, invalid_parameter, invalid_operation,
  bad_path, Error, coded, plain, Result, ok, err, panic, ◌>>=◌, ◌>>◌, fail, must, must_get, foreign,
  is_ok, >>=-eq-ok, delete_at-insert_at, insert_at-delete_at, get_elem?-insert_at_self, set-set,
  set_self,
}
use jsonot.Value.{Values}
use jsonot.Operator.{Operator, list_insert, list_delete}
use jsonot.Path.{increase_index, decrease_index, DocPath, PathElement, element_from_index}
use jsonot.SubType.Interface.{Clients, TransformSide, left, right, is_right}
use jsonot.Component.{Component}
use jsonot.Transform.{transform_component}
use jsonot.Transform.Moves.{shift_up, shift_down, Outcome, keep, drop_new}

module _ {V : Type 0} where
  abbrev pub at : ℕ → Operator V → Component V
  at i op = record { operator = op; path = element_from_index (pos i) ∷ [] }

  shift_up-at :
      (i : ℕ) (op : Operator V)
      → i + 1 < int_bound
      → shift_up (at i op) (pos 0) ≡ ok (at (i + 1) op)
  unfolding shift_up increase_index
  shift_up-at i op h = ground (arith, add_int-pos i 1 h)

  shift_down-at :
      (i : ℕ) (op : Operator V)
      → 0 < i
      → i < int_bound
      → shift_down (at i op) (pos 0) ≡ ok (at (i - 1) op)
  unfolding shift_down decrease_index
  shift_down-at (suc i) op h k = ground (arith, sub_int-pos (suc i) 1 (omega arith) k)
  shift_down-at zero op h k = absurd (omega arith)

module _ (V : Values) (C : Clients V) (x y : V.Value) (i j : ℕ) (side : TransformSide) where
  open V use {Value}

  -- An insertion moves up over an insertion before it, and over one at its place on the right side.
  pub insert_over_insert :
      i + 1 < int_bound
      → transform_component V C (at i (list_insert x)) (at j (list_insert y)) side
        ≡ ok (keep (at (if ltb j i || (j == i && is_right side) then i + 1 else i) (list_insert x)))
  unfolding transform_component
  insert_over_insert h = ground (arith, shift_up-at i (list_insert x) h)

  -- A deletion moves up over an insertion at or before its place.
  pub delete_over_insert :
      i + 1 < int_bound
      → transform_component V C (at i (list_delete x)) (at j (list_insert y)) side
        ≡ ok (keep (at (if leb j i then i + 1 else i) (list_delete x)))
  unfolding transform_component
  delete_over_insert h = ground (arith, shift_up-at i (list_delete x) h)

  -- An insertion moves down over a deletion before it.
  pub insert_over_delete :
      i + 1 < int_bound
      → transform_component V C (at i (list_insert x)) (at j (list_delete y)) side
        ≡ ok (keep (at (if ltb j i then i - 1 else i) (list_insert x)))
  unfolding transform_component
  insert_over_delete h = ground (arith, shift_down-at i (list_insert x))

  -- A deletion moves down over a deletion before it, and is dropped over one at its place.
  pub delete_over_delete :
      i + 1 < int_bound
      → transform_component V C (at i (list_delete x)) (at j (list_delete y)) side
        ≡ ok (
            if j == i
            then drop_new (at i (list_delete x))
            else keep (at (if ltb j i then i - 1 else i) (list_delete x)))
  unfolding transform_component
  delete_over_delete h = ground (arith, shift_down-at i (list_delete x))
