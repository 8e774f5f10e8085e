-- ===== src/Comptime/Int64.antt =====
-- The `int64_t` operators of `EvalExpr` in toolchain/check/comptime_eval.cpp, under C++20: `none`
-- where the language leaves the result undefined (a sum, difference, product or negation that does
-- not fit, the quotient of the least number by -1, a shift by a distance outside 0 to 63).
use Prim.Native.Nat.{bit_and, bit_or, bit_xor}
use tinyswift.Prelude.{
  ℕ, ◌-◌, ◌*◌, ◌/◌, ◌%◌, ◌^◌, zero, suc, Bool, ◌&&◌, Option, none, some, ℤ, pos, negsuc, ◌+ℤ◌, ◌-ℤ◌,
  ◌*ℤ◌, leb_ℤ, ltb, if◌then◌else◌,
}

abbrev pub min_int64 : ℤ
min_int64 = negsuc (2 ^ 63 - 1)

abbrev pub max_int64 : ℤ
max_int64 = pos (2 ^ 63 - 1)

unfoldable pub in_int64 : ℤ → Bool
in_int64 a = leb_ℤ min_int64 a && leb_ℤ a max_int64

-- A result that is undefined where it does not fit.
unfoldable pub checked : ℤ → Option ℤ
checked a = if in_int64 a then some a else none

unfoldable pub add64 : ℤ → ℤ → Option ℤ
add64 a b = checked (a +ℤ b)

unfoldable pub sub64 : ℤ → ℤ → Option ℤ
sub64 a b = checked (a -ℤ b)

unfoldable pub mul64 : ℤ → ℤ → Option ℤ
mul64 a b = checked (a *ℤ b)

unfoldable pub neg64 : ℤ → Option ℤ
neg64 a = checked (pos 0 -ℤ a)

-- -n
abbrev pub negated : ℕ → ℤ
negated zero = pos 0
negated (suc n) = negsuc n

-- `a / b` rounds towards 0; the divisor is not 0.
unfoldable pub quotient : ℤ → ℤ → ℤ
quotient (pos a) (pos b) = pos (a / b)
quotient (pos a) (negsuc b) = negated (a / suc b)
quotient (negsuc a) (pos b) = negated (suc a / b)
quotient (negsuc a) (negsuc b) = pos (suc a / suc b)

unfoldable pub div64 : ℤ → ℤ → Option ℤ
div64 a b = checked (quotient a b)

-- `a % b` has the sign of `a`.
unfoldable pub remainder : ℤ → ℤ → ℤ
remainder (pos a) (pos b) = pos (a % b)
remainder (pos a) (negsuc b) = pos (a % suc b)
remainder (negsuc a) (pos b) = negated (suc a % b)
remainder (negsuc a) (negsuc b) = negated (suc a % suc b)

-- The remainder is defined where the quotient is.
unfoldable pub defined_remainder : ℤ → ℤ → Option ℤ → Option ℤ
defined_remainder a b none = none
defined_remainder a b (some _) = some (remainder a b)

unfoldable pub rem64 : ℤ → ℤ → Option ℤ
rem64 a b = defined_remainder a b (div64 a b)

-- The two's complement pattern of 64 bits, and the number that a pattern stands for.
unfoldable pub to_bits : ℤ → ℕ
to_bits (pos n) = n % 2 ^ 64
to_bits (negsuc n) = 2 ^ 64 - 1 - n % 2 ^ 64

unfoldable pub of_bits : ℕ → ℤ
of_bits w = if ltb w (2 ^ 63) then pos w else negsuc (2 ^ 64 - w - 1)

unfoldable pub and64 : ℤ → ℤ → ℤ
and64 a b = of_bits (bit_and (to_bits a) (to_bits b))

unfoldable pub or64 : ℤ → ℤ → ℤ
or64 a b = of_bits (bit_or (to_bits a) (to_bits b))

unfoldable pub xor64 : ℤ → ℤ → ℤ
xor64 a b = of_bits (bit_xor (to_bits a) (to_bits b))

unfoldable pub not64 : ℤ → ℤ
not64 (pos n) = negsuc n
not64 (negsuc n) = pos n

unfoldable pub shl64 : ℤ → ℤ → Option ℤ
shl64 a (pos k) = if ltb k 64 then some (of_bits (to_bits a * 2 ^ k % 2 ^ 64)) else none
shl64 a (negsuc _) = none

-- The shift of a negative number rounds down.
unfoldable pub shift_down : ℤ → ℕ → ℤ
shift_down (pos n) k = pos (n / 2 ^ k)
shift_down (negsuc n) k = negsuc (n / 2 ^ k)

unfoldable pub shr64 : ℤ → ℤ → Option ℤ
shr64 a (pos k) = if ltb k 64 then some (shift_down a k) else none
shr64 a (negsuc _) = none
