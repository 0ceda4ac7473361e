-- ===== src/SubType/Text/Splice.antt =====
-- subtype.go: `SubString` and the string that an insertion leaves, in range.
use jsonot.Base.{
  ℕ, ◌-◌, suc, zero, ◌≤◌, min, ◌≡◌, refl, ap, sym, ◌∙◌, true, false, [], ◌∷◌, ◌++◌, arith, ltb, leb,
  length, take, drop, pos, leb_ℤ, Bytes, Bool-cases, inl, inr, ok, length-drop,
}
use jsonot.SubType.Text.{sub_string, len, new_insert_text_operand}
use jsonot.SubType.Text.Functions.{apply_operand, splice}

-- A string with another one put in at a place.
abbrev pub inserted : Bytes → ℕ → Bytes → Bytes
inserted s p i = take p s ++ (i ++ drop p s)

pub take-all : (s : Bytes) (n : ℕ) → length s ≤ n → take n s ≡ s
take-all [] zero h = refl
take-all [] (suc n) h = refl
take-all (x ∷ s) zero h = absurd (omega arith)
take-all (x ∷ s) (suc n) h = ap (x ∷◌) (take-all s n (omega arith))

pub drop-all : (s : Bytes) (n : ℕ) → length s ≤ n → drop n s ≡ []
drop-all [] zero h = refl
drop-all [] (suc n) h = refl
drop-all (x ∷ s) zero h = absurd (omega arith)
drop-all (x ∷ s) (suc n) h = drop-all s n (omega arith)

take-min : (s : Bytes) (n : ℕ) → take (min n (length s)) s ≡ take n s
take-min s n = elim (Bool-cases (leb n (length s))) [
  | inl short ↦ let e : min n (length s) ≡ n = ground arith in rw e
  | inr long ↦
      let e : min n (length s) ≡ length s = ground arith in
      rw e (take-all s (length s) (omega arith) ∙ sym (take-all s n (ground arith)))
]

-- `SubString(s, 0, n)`
pub sub_string-front : (s : Bytes) (n : ℕ) → sub_string s (pos 0) (pos n) ≡ ok (take n s)
unfolding sub_string
sub_string-front [] n = ap ok (sym (take-all [] n (omega arith)))
sub_string-front (x ∷ s) n =
    let a : leb (length (x ∷ s)) 0 ≡ false = ground arith in
    let b : ltb (min n (length (x ∷ s))) 0 ≡ false = ground arith in
    let c : min n (length (x ∷ s)) - 0 ≡ min n (length (x ∷ s)) = omega arith in
    rw (a, b, c) (ap ok (take-min (x ∷ s) n))

-- `SubString(s, n, len(s))`
pub sub_string-back : (s : Bytes) (n : ℕ) → sub_string s (pos n) (len s) ≡ ok (drop n s)
unfolding sub_string
sub_string-back s n = elim (Bool-cases (leb (length s) n)) [
  | inl past ↦ let e : drop n s ≡ [] = drop-all s n (ground arith) in rw (past, e)
  | inr before ↦
      let b : ltb (min (length s) (length s)) n ≡ false = ground arith in
      let e : take (min (length s) (length s) - n) (drop n s) ≡ drop n s =
        take-all (drop n s) (min (length s) (length s) - n) (omega (arith, length-drop n s)) in
      rw (before, b, e)
]

pub splice-inserted : (s i : Bytes) (p : ℕ) → splice s (pos p) i ≡ ok (inserted s p i)
unfolding splice
splice-inserted s i p = rw (sub_string-front s p, sub_string-back s p)

-- `Apply` of an insertion, inside the text.
pub apply-insert :
    (s i : Bytes) (p : ℕ)
    → p ≤ length s
    → apply_operand (new_insert_text_operand (pos p) i) s ≡ ok (inserted s p i)
unfolding apply_operand
apply-insert s i p h =
    let e : leb_ℤ (pos p) (len s) ≡ true = ground arith in rw (e, splice-inserted s i p)
