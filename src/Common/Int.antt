-- ===== src/Common/Int.antt =====
-- Go's `int` on a 64-bit machine: an integer, wrapped around after each operation. An integer is
-- read through its two parts, which are numbers that `omega` knows.
use simple_go_server.Common.Tests.{ltb, leb, if◌then◌else◌}
use Prim.Native.Nat.{ℕ, suc, ◌+◌, ◌-◌, ◌%◌, ◌^◌, ◌≤◌, ◌<◌}
use mathlib.Core.Path.{◌≡◌, refl}
use mathlib.Core.Bool.{Bool}
use native.Mathlib.Omega.{arith}

-- `negsuc n` is -(n + 1).
pub data ℤ : Type 0 where
  pos : ℕ → ℤ
  negsuc : ℕ → ℤ

abbrev pub pos_part : ℤ → ℕ
pos_part (pos n) = n
pos_part (negsuc n) = 0

abbrev pub neg_part : ℤ → ℕ
neg_part (pos n) = 0
neg_part (negsuc n) = suc n

-- a - b, as an integer.
abbrev pub sub_ℕ : ℕ → ℕ → ℤ
sub_ℕ a b = if leb b a then pos (a - b) else negsuc (b - a - 1)

infix 50 ◌≤ℤ◌
abbrev pub ◌≤ℤ◌ : ℤ → ℤ → Type 0
a ≤ℤ b = pos_part a + neg_part b ≤ pos_part b + neg_part a

abbrev pub ltb_ℤ : ℤ → ℤ → Bool
ltb_ℤ a b = ltb (pos_part a + neg_part b) (pos_part b + neg_part a)

abbrev pub leb_ℤ : ℤ → ℤ → Bool
leb_ℤ a b = leb (pos_part a + neg_part b) (pos_part b + neg_part a)

abbrev pub int_max : ℕ
int_max = 2 ^ 63

-- Two's complement: the residue modulo 2 ^ 64 that lies from -2 ^ 63 up to 2 ^ 63 - 1.
abbrev signed_word : ℕ → ℤ
signed_word w = if ltb w int_max then pos w else negsuc (2 ^ 64 - 1 - w)

unfoldable pub wrap : ℤ → ℤ
wrap (pos n) = signed_word (n % 2 ^ 64)
wrap (negsuc n) = signed_word (2 ^ 64 - 1 - n % 2 ^ 64)

unfoldable pub add_int : ℤ → ℤ → ℤ
unfolding wrap
add_int a b = wrap (sub_ℕ (pos_part a + pos_part b) (neg_part a + neg_part b))

unfoldable pub sub_int : ℤ → ℤ → ℤ
unfolding wrap
sub_int a b = wrap (sub_ℕ (pos_part a + neg_part b) (neg_part a + pos_part b))

-- Go's remainder takes the sign of the dividend; the divisor is not zero.
unfoldable pub rem_int : ℤ → ℤ → ℤ
rem_int (pos m) b = pos (m % (pos_part b + neg_part b))
rem_int (negsuc m) b = sub_ℕ 0 (suc m % (pos_part b + neg_part b))

pub add_int-pos : (m n : ℕ) → m + n < int_max → add_int (pos m) (pos n) ≡ pos (m + n)
unfolding add_int
add_int-pos m n h = ground arith

pub sub_int-pos : (m n : ℕ) → n ≤ m → m < int_max → sub_int (pos m) (pos n) ≡ pos (m - n)
unfolding sub_int
sub_int-pos m n h k = ground arith

-- A difference of two numbers in range, negative or not, is exact.
pub sub_int-sub_ℕ : (m n : ℕ) → m < int_max → n < int_max → sub_int (pos m) (pos n) ≡ sub_ℕ m n
unfolding sub_int
sub_int-sub_ℕ m n h k = ground arith

wraps : add_int (pos (2 ^ 63 - 1)) (pos 1) ≡ negsuc (2 ^ 63 - 1)
unfolding add_int
wraps = refl
