-- ===== src/Tests/Texts.antt =====
-- Text operands.
use jsonot.Base.{◌++◌, ◌==◌, ◌≡◌, false, some, [], ◌∷◌, arith, pos, Bytes, lit, ok, ◌>>=◌, is_ok}
use jsonot.SubType.Interface.{left, right}
use jsonot.SubType.Text.{
  TextOperand, new_insert_text_operand, new_delete_text_operand, invert_object,
}
use jsonot.SubType.Text.Functions.{apply_operand, merge_operands, transform_operands}
use jsonot.SubType.Text.Splice.{inserted}
use jsonot.SubType.Text.Converge.{merge_operands-apply, text_inserts_converge, text_insert_behind}
use jsonot.SubType.Text.Undo.{apply-delete_fails, apply-invert_text}

merge_operands-apply_example :
    (m : TextOperand) × (merge_operands
        (new_insert_text_operand (pos 1) (lit "xy"))
        (new_insert_text_operand (pos 2) (lit "z"))
      ≡ ok (some m))
    × ((apply_operand (new_insert_text_operand (pos 1) (lit "xy")) (lit "abc") >>= λ t.
          apply_operand (new_insert_text_operand (pos 2) (lit "z")) t)
        ≡ apply_operand m (lit "abc"))
merge_operands-apply_example =
    merge_operands-apply (lit "abc") (lit "xy") (lit "z") 1 2 (omega arith) (omega arith)
      (omega arith) (omega arith)

text_inserts_converge_example :
    (n' b' : TextOperand) × (transform_operands
        (new_insert_text_operand (pos 1) (lit "x"))
        (new_insert_text_operand (pos 1) (lit "y"))
        right
      ≡ ok (n' ∷ []))
    × (transform_operands
          (new_insert_text_operand (pos 1) (lit "y"))
          (new_insert_text_operand (pos 1) (lit "x"))
          left
        ≡ ok (b' ∷ []))
    × (apply_operand n' (inserted (lit "ab") 1 (lit "y"))
        ≡ apply_operand b' (inserted (lit "ab") 1 (lit "x")))
text_inserts_converge_example =
    text_inserts_converge (lit "ab") (lit "x") (lit "y") 1 (omega arith) (omega arith)

apply-delete_fails_example :
    is_ok (apply_operand (new_delete_text_operand (pos 1) (lit "b")) (lit "abc")) ≡ false
apply-delete_fails_example = apply-delete_fails (lit "abc") (lit "b") 1 (omega arith) (omega arith)

apply-invert_text_example :
    (r : Bytes) × (d : TextOperand) × (apply_operand
        (new_insert_text_operand (pos 2) (lit "x"))
        (lit "abc")
      ≡ ok r)
    × (invert_object (new_insert_text_operand (pos 2) (lit "x")) ≡ ok d)
    × (is_ok (apply_operand d r) ≡ (2 == 0))
apply-invert_text_example =
    apply-invert_text (lit "abc") (lit "x") 2 (omega arith) (omega arith) (omega arith)

text_insert_behind_example :
    (n' : TextOperand) × (transform_operands
        (new_insert_text_operand (pos 3) (lit "x"))
        (new_insert_text_operand (pos 0) (lit "y"))
        left
      ≡ ok (n' ∷ []))
    × (apply_operand n' (inserted (lit "abc") 0 (lit "y"))
        ≡ ok (inserted (lit "abc") 0 (lit "y" ++ lit "x")))
text_insert_behind_example =
    text_insert_behind (lit "abc") (lit "x") (lit "y") 0 3 left (omega arith) (omega arith)
      (omega arith)
