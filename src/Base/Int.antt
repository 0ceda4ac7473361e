-- ===== src/Base/Int.antt =====
-- Go's `int` of 64 bits: an integer, brought back into its range by `wrap` after each operation.
use Prim.Native.Nat.{ℕ, suc, ◌+◌, ◌-◌, ◌*◌, ◌%◌, ◌≤◌, ◌<◌}
use mathlib.Core.Path.{◌≡◌}
use mathlib.Core.Bool.{Bool, true}
use native.Mathlib.Omega.{arith}
use package.jsonot.Base.Tests.{ltb, leb, ◌==◌, if◌then◌else◌}

-- `negsuc n` is -(n + 1).
pub data ℤ : Type 0 where
  pos : ℕ → ℤ
  negsuc : ℕ → ℤ

abbrev pub pos_part : ℤ → ℕ
pos_part (pos n) = n
pos_part (negsuc n) = 0

abbrev pub neg_part : ℤ → ℕ
neg_part (pos n) = 0
neg_part (negsuc n) = suc n

-- a - b, as an integer.
abbrev pub sub_ℕ : ℕ → ℕ → ℤ
sub_ℕ a b = if leb b a then pos (a - b) else negsuc (b - a - 1)

abbrev pub neg : ℤ → ℤ
neg a = sub_ℕ (neg_part a) (pos_part a)

infixl 65 ◌+ℤ◌ ◌-ℤ◌
abbrev pub ◌+ℤ◌ : ℤ → ℤ → ℤ
a +ℤ b = sub_ℕ (pos_part a + pos_part b) (neg_part a + neg_part b)

abbrev pub ◌-ℤ◌ : ℤ → ℤ → ℤ
a -ℤ b = sub_ℕ (pos_part a + neg_part b) (neg_part a + pos_part b)

abbrev pub ltb_ℤ : ℤ → ℤ → Bool
ltb_ℤ a b = ltb (pos_part a + neg_part b) (pos_part b + neg_part a)

abbrev pub leb_ℤ : ℤ → ℤ → Bool
leb_ℤ a b = leb (pos_part a + neg_part b) (pos_part b + neg_part a)

abbrev pub eq_ℤ : ℤ → ℤ → Bool
eq_ℤ a b = pos_part a + neg_part b == pos_part b + neg_part a

-- 2 ^ 63, and the bit pattern of an integer read as a signed 64-bit number.
abbrev pub int_bound : ℕ
int_bound = 9223372036854775808

abbrev pub signed : ℕ → ℤ
signed m = if ltb m int_bound then pos m else negsuc (2 * int_bound - 1 - m)

unfoldable pub wrap : ℤ → ℤ
wrap (pos n) = signed (n % (2 * int_bound))
wrap (negsuc n) = signed (2 * int_bound - 1 - n % (2 * int_bound))

-- Go's `+`, `-` and unary `-` on `int`.
unfoldable pub add_int : ℤ → ℤ → ℤ
unfolding wrap
add_int a b = wrap (a +ℤ b)

unfoldable pub sub_int : ℤ → ℤ → ℤ
unfolding wrap
sub_int a b = wrap (a -ℤ b)

unfoldable pub neg_int : ℤ → ℤ
unfolding wrap
neg_int a = wrap (neg a)

abbrev pub InRange : ℤ → Type 0
InRange (pos n) = n < int_bound
InRange (negsuc n) = n < int_bound

pub eq_ℤ→eq : (a b : ℤ) → eq_ℤ a b ≡ true → a ≡ b
eq_ℤ→eq a b h = ground arith

pub eq_ℤ_refl : (a : ℤ) → eq_ℤ a a ≡ true
eq_ℤ_refl a = ground arith

-- In range nothing wraps.
pub wrap_of_InRange : (a : ℤ) → InRange a → wrap a ≡ a
unfolding wrap
wrap_of_InRange (pos n) h = ground arith
wrap_of_InRange (negsuc n) h = ground arith

pub add_int-pos : (m n : ℕ) → m + n < int_bound → add_int (pos m) (pos n) ≡ pos (m + n)
unfolding add_int
add_int-pos m n h = ground arith

pub sub_int-pos : (m n : ℕ) → n ≤ m → m < int_bound → sub_int (pos m) (pos n) ≡ pos (m - n)
unfolding sub_int
sub_int-pos m n h k = ground arith

pub neg_int-neg_int : (a : ℤ) → InRange a → InRange (neg a) → neg_int (neg_int a) ≡ a
unfolding neg_int
neg_int-neg_int (pos n) h k = ground arith
neg_int-neg_int (negsuc n) h k = ground arith
