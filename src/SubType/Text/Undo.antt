-- ===== src/SubType/Text/Undo.antt =====
-- subtype.go: applying a deletion, and undoing an insertion.
use jsonot.Base.{
  ℕ, ◌-◌, ◌≤◌, ◌<◌, min, ◌==◌, ◌≡◌, refl, ap, ◌∙◌, false, [], ◌∷◌, ◌++◌, arith, ltb, leb,
  if◌then◌else◌, length, take, drop, pos, ltb_ℤ, add_int, int_bound, Bytes, str_eq, str_eq_refl,
  str_eq_iff, Bool-cases, inl, inr, ok, ◌>>=◌, is_ok, length-append, length-take, add_int-pos,
}
use jsonot.SubType.Text.{
  TextOperand, sub_string, len, new_insert_text_operand, new_delete_text_operand, invert_object,
}
use jsonot.SubType.Text.Functions.{apply_operand, apply_delete}
use jsonot.SubType.Text.Splice.{inserted, apply-insert, sub_string-front, sub_string-back}

longer : (d t : Bytes) → length t < length d → str_eq d t ≡ false
longer d t h = elim (Bool-cases (str_eq d t)) [
  | inl same ↦ let e : d ≡ t = (str_eq_iff d t).0 same in absurd (omega (arith, ap length e))
  | inr other ↦ other
]

-- At an offset above 0 of a string, the deletion of a text that is not empty never succeeds.
pub apply-delete_fails :
    (s d : Bytes) (p : ℕ)
    → 0 < p
    → 0 < length d
    → is_ok (apply_operand (new_delete_text_operand (pos p) d) s) ≡ false
unfolding apply_operand apply_delete sub_string
apply-delete_fails s d p h k = elim (Bool-cases (leb (length s) p)) [
  | inl past ↦ rw past (rw (longer d [] k))
  | inr before ↦ elim (Bool-cases (ltb (min (length d) (length s)) p)) [
    | inl out ↦ rw (before, out)
    | inr inside ↦
        let short : length (take (min (length d) (length s) - p) (drop p s)) < length d =
          ground (arith, length-take (min (length d) (length s) - p) (drop p s)) in
        rw (before, inside, longer d (take (min (length d) (length s) - p) (drop p s)) short)
  ]
]

take-append : (d r : Bytes) → take (length d) (d ++ r) ≡ d
take-append [] r = refl
take-append (x ∷ d) r = ap (x ∷◌) (take-append d r)

drop-append : (d r : Bytes) → drop (length d) (d ++ r) ≡ r
drop-append [] r = refl
drop-append (x ∷ d) r = drop-append d r

append-empty : (t r : Bytes) → length t ≡ 0 → t ++ r ≡ r
append-empty [] r e = refl
append-empty (x ∷ t) r e = absurd (omega arith)

-- At the front, the deletion of what a text begins with leaves the rest.
pub apply-delete_front :
    (d r : Bytes)
    → length d < int_bound
    → apply_operand (new_delete_text_operand (pos 0) d) (d ++ r) ≡ ok r
unfolding apply_operand apply_delete
apply-delete_front d r h =
    let far : add_int (pos 0) (len d) ≡ pos (length d) =
      add_int-pos 0 (length d) (omega arith) ∙ ap pos (omega arith) in
    rw (sub_string-front (d ++ r) (length d), take-append d r, str_eq_refl d) (ends far)
  where
    ends :
        add_int (pos 0) (len d) ≡ pos (length d)
        → (if ltb_ℤ (pos 0) (len (d ++ r))
            then (do
              l ← sub_string (d ++ r) (pos 0) (pos 0)
              t ← sub_string (d ++ r) (add_int (pos 0) (len d)) (len (d ++ r))
              ok (l ++ t))
            else ok (d ++ r))
          ≡ ok r
    ends far = elim (Bool-cases (ltb_ℤ (pos 0) (len (d ++ r)))) [
      | inl full ↦
          rw (full, sub_string-front (d ++ r) 0, far)
            (rw (sub_string-back (d ++ r) (length d), drop-append d r))
      | inr empty ↦ rw empty (ap ok (append-empty d r (ground (arith, length-append d r))))
    ]

-- The insertion of a text that is not empty, at an offset inside a text, has an inverse, which
-- applies to the result exactly when that offset is 0; the length fits an `int`.
pub apply-invert_text :
    (s i : Bytes) (p : ℕ)
    → p ≤ length s
    → 0 < length i
    → length i < int_bound
    → (r : Bytes) × (d : TextOperand) × (apply_operand (new_insert_text_operand (pos p) i) s ≡ ok r)
      × (invert_object (new_insert_text_operand (pos p) i) ≡ ok d)
      × (is_ok (apply_operand d r) ≡ (p == 0))
unfolding invert_object
apply-invert_text s i p h k bound = (
  inserted s p i,
  new_delete_text_operand (pos p) i,
  apply-insert s i p h,
  refl,
  elim (Bool-cases (p == 0)) [
    | inl front ↦ let e : p ≡ 0 = ground arith in rw e (rw (apply-delete_front i s bound) refl)
    | inr away ↦ rw away (apply-delete_fails (inserted s p i) i p (ground arith) k)
  ],
)
