-- ===== src/SubType/Text/Converge.antt =====
-- subtype.go: merged, undone and concurrent text operands, on the text they are applied to.
use jsonot.Base.{
  ℕ, ◌+◌, ◌-◌, suc, zero, ◌≤◌, ◌<◌, ◌≡◌, refl, ap, sym, ◌∙◌, true, false, some, [], ◌∷◌, ◌++◌,
  arith, length, take, drop, pos, ltb_ℤ, leb_ℤ, eq_ℤ, add_int, sub_int, int_bound, Bytes, ok, ◌>>=◌,
  length-append, length-take, length-drop, add_int-pos, sub_int-pos,
}
use mathlib.Core.List.{append_assoc, append-nil}
use jsonot.SubType.Interface.{left, right, TransformSide}
use jsonot.SubType.Text.{TextOperand, len, new_insert_text_operand, transform_position}
use jsonot.SubType.Text.Functions.{apply_operand, merge_operands, transform_operands}
use jsonot.SubType.Text.Splice.{inserted, apply-insert, splice-inserted, take-all, drop-all}

take-append_add : (xs ys : Bytes) (n : ℕ) → take (length xs + n) (xs ++ ys) ≡ xs ++ take n ys
take-append_add [] ys n = let e : 0 + n ≡ n = omega arith in rw e
take-append_add (x ∷ xs) ys n =
    let e : suc (length xs) + n ≡ suc (length xs + n) = omega arith in
    rw e (ap (x ∷◌) (take-append_add xs ys n))

drop-append_add : (xs ys : Bytes) (n : ℕ) → drop (length xs + n) (xs ++ ys) ≡ drop n ys
drop-append_add [] ys n = let e : 0 + n ≡ n = omega arith in rw e
drop-append_add (x ∷ xs) ys n =
    let e : suc (length xs) + n ≡ suc (length xs + n) = omega arith in
    rw e (drop-append_add xs ys n)

take-append_le : (xs ys : Bytes) (n : ℕ) → n ≤ length xs → take n (xs ++ ys) ≡ take n xs
take-append_le xs ys zero h = refl
take-append_le [] ys (suc n) h = absurd (omega arith)
take-append_le (x ∷ xs) ys (suc n) h = ap (x ∷◌) (take-append_le xs ys n (omega arith))

drop-append_le : (xs ys : Bytes) (n : ℕ) → n ≤ length xs → drop n (xs ++ ys) ≡ drop n xs ++ ys
drop-append_le xs ys zero h = refl
drop-append_le [] ys (suc n) h = absurd (omega arith)
drop-append_le (x ∷ xs) ys (suc n) h = drop-append_le xs ys n (omega arith)

length-take_le : (s : Bytes) (p : ℕ) → p ≤ length s → length (take p s) ≡ p
length-take_le s p h = ground (arith, length-take p s)

length-inserted :
    (s i : Bytes) (p : ℕ) → p ≤ length s → length (inserted s p i) ≡ length s + length i
length-inserted s i p h = omega (
  arith,
  length-append (take p s) (i ++ drop p s),
  length-append i (drop p s),
  length-take_le s p h,
  length-drop p s,
)

-- Putting a string into one that was put in.
pub inserted-inserted :
    (s b o : Bytes) (p k : ℕ)
    → p ≤ length s
    → k ≤ length b
    → inserted (inserted s p b) (p + k) o ≡ inserted s p (inserted b k o)
inserted-inserted s b o p k h l =
    let n = length-take_le s p h in
    let front : take (p + k) (inserted s p b) ≡ take p s ++ take k b =
      ap (λ m. take (m + k) (inserted s p b)) (sym n)
      ∙ take-append_add (take p s) (b ++ drop p s) k
      ∙ ap (λ (r : Bytes). take p s ++ r) (take-append_le b (drop p s) k l) in
    let back : drop (p + k) (inserted s p b) ≡ drop k b ++ drop p s =
      ap (λ m. drop (m + k) (inserted s p b)) (sym n)
      ∙ drop-append_add (take p s) (b ++ drop p s) k
      ∙ drop-append_le b (drop p s) k l in
    rw (
      front,
      back,
      append_assoc (take p s) (take k b) (o ++ (drop k b ++ drop p s)),
      append_assoc (take k b) (o ++ drop k b) (drop p s),
      append_assoc o (drop k b) (drop p s),
    )

-- Two insertions, the first inside the text and the second starting inside the first or at an end
-- of it, merge into one operand that does to a text what the two do one after the other; the
-- lengths fit an `int`.
pub merge_operands-apply :
    (s b o : Bytes) (p q : ℕ)
    → p ≤ length s
    → p ≤ q
    → q ≤ p + length b
    → length s + length b < int_bound
    → (m : TextOperand) × (merge_operands
          (new_insert_text_operand (pos p) b)
          (new_insert_text_operand (pos q) o)
        ≡ ok (some m))
      × ((apply_operand (new_insert_text_operand (pos p) b) s >>= λ t.
            apply_operand (new_insert_text_operand (pos q) o) t)
          ≡ apply_operand m s)
unfolding merge_operands
merge_operands-apply s b o p q h lo hi bound =
    let far : add_int (pos p) (len b) ≡ pos (p + length b) =
      add_int-pos p (length b) (omega arith) in
    let near : sub_int (pos q) (pos p) ≡ pos (q - p) = sub_int-pos q p lo (omega arith) in
    let x : leb_ℤ (pos p) (pos q) ≡ true = ground arith in
    let y : leb_ℤ (pos q) (pos (p + length b)) ≡ true = ground arith in
    let at : q ≡ p + (q - p) = omega arith in
    (
      new_insert_text_operand (pos p) (inserted b (q - p) o),
      rw (x, far, y) (rw (near, splice-inserted b o (q - p))),
      rw (apply-insert s b p h, apply-insert s (inserted b (q - p) o) p h)
          (apply-insert (inserted s p b) o q (omega (arith, length-inserted s b p h))
            ∙ ap (λ m. ok (inserted (inserted s p b) m o)) at
            ∙ ap ok (inserted-inserted s b o p (q - p) h (omega arith))),
    )

inserted-end : (b n : Bytes) → inserted b (length b) n ≡ b ++ n
inserted-end b n =
    rw (take-all b (length b) (omega arith), drop-all b (length b) (omega arith), append-nil n)

-- Two clients insert at one offset inside a text; each insertion transformed over the other one,
-- on its side, leads to the same text, if the lengths fit an `int`.
pub text_inserts_converge :
    (s n b : Bytes) (p : ℕ)
    → p ≤ length s
    → length s + length b + length n < int_bound
    → (n' b' : TextOperand) × (transform_operands
          (new_insert_text_operand (pos p) n)
          (new_insert_text_operand (pos p) b)
          right
        ≡ ok (n' ∷ []))
      × (transform_operands
            (new_insert_text_operand (pos p) b)
            (new_insert_text_operand (pos p) n)
            left
          ≡ ok (b' ∷ []))
      × (apply_operand n' (inserted s p b) ≡ apply_operand b' (inserted s p n))
unfolding transform_operands transform_position
text_inserts_converge s n b p h bound =
    let far : add_int (pos p) (len b) ≡ pos (p + length b) =
      add_int-pos p (length b) (omega arith) in
    let x : ltb_ℤ (pos p) (pos p) ≡ false = ground arith in
    let y : eq_ℤ (pos p) (pos p) ≡ true = ground arith in
    (
      new_insert_text_operand (pos (p + length b)) n,
      new_insert_text_operand (pos p) b,
      rw (x, y, far),
      rw (x, y),
      rw
          (
            apply-insert (inserted s p b) n (p + length b) (omega (arith, length-inserted s b p h)),
            apply-insert (inserted s p n) b p (omega (arith, length-inserted s n p h)),
          )
          (ap ok (
            inserted-inserted s b n p (length b) h (omega arith)
            ∙ ap (inserted s p) (inserted-end b n)
            ∙ sym (
                ap (λ m. inserted (inserted s p n) m b) (omega arith)
                ∙ inserted-inserted s n b p 0 h (omega arith)))),
    )

-- An insertion inside a text and behind a concurrent one is transformed, on either side, to one
-- right behind the concurrent text, wherever it was meant to be; the lengths fit an `int`.
pub text_insert_behind :
    (s n b : Bytes) (p q : ℕ) (side : TransformSide)
    → p < q
    → q ≤ length s
    → length s + length b < int_bound
    → (n' : TextOperand) × (transform_operands
          (new_insert_text_operand (pos q) n)
          (new_insert_text_operand (pos p) b)
          side
        ≡ ok (n' ∷ []))
      × (apply_operand n' (inserted s p b) ≡ ok (inserted s p (b ++ n)))
unfolding transform_operands transform_position
text_insert_behind s n b p q side h k bound =
    let far : add_int (pos p) (len b) ≡ pos (p + length b) =
      add_int-pos p (length b) (omega arith) in
    let x : ltb_ℤ (pos p) (pos q) ≡ true = ground arith in
    (
      new_insert_text_operand (pos (p + length b)) n,
      rw (x, far),
      apply-insert (inserted s p b) n (p + length b)
            (omega (arith, length-inserted s b p (omega arith)))
          ∙ ap ok (
              inserted-inserted s b n p (length b) (omega arith) (omega arith)
              ∙ ap (inserted s p) (inserted-end b n)),
    )
