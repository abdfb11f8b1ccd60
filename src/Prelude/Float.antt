-- ===== src/Prelude/Float.antt =====
-- `double`: the IEEE 754 bit pattern, with the comparisons of the language.
use Prim.Native.Nat.{ℕ, ◌*◌, ◌%◌, ◌^◌}
use mathlib.Core.Path.{◌≡◌}
use mathlib.Core.Bool.{Bool, true, false, ◌&&◌, ◌||◌, not}
use native.Mathlib.Omega.{arith}
use rpc_spec.Prelude.Tests.{ltb, leb, ◌==◌, if◌then◌else◌}

-- The 64 bits, as a number below 2 ^ 64: sign, eleven bits of exponent, 52 of fraction.
pub record Double : Type 0 where
  pub bits : ℕ

-- The bits without the sign; they order the values of one sign.
abbrev pub magnitude : Double → ℕ
magnitude x = x.bits % 2 ^ 63

abbrev pub sign_bit : Double → Bool
sign_bit x = leb (2 ^ 63) x.bits

-- All bits of the exponent are set and the fraction is not zero.
unfoldable pub is_nan : Double → Bool
is_nan x = ltb (2047 * 2 ^ 52) (magnitude x)

-- The order of the values by sign and magnitude, for operands that are no NaN; both zeros are equal.
unfoldable pub below : Bool → ℕ → Bool → ℕ → Bool
below false m false n = ltb m n
below true m true n = ltb n m
below true m false n = not ((m == 0) && (n == 0))
below false m true n = false

-- `x < y`: false if one of them is NaN.
unfoldable pub double_lt : Double → Double → Bool
unfolding is_nan below
double_lt x y =
    if is_nan x || is_nan y
    then false
    else below (sign_bit x) (magnitude x) (sign_bit y) (magnitude y)

abbrev pub double_zero : Double
double_zero = record { bits = 0 }

-- `x <= y`: false if one of them is NaN.
unfoldable pub double_le : Double → Double → Bool
unfolding is_nan double_lt
double_le x y = if is_nan x || is_nan y then false else not (double_lt y x)

pub double_lt_irrefl : (x : Double) → double_lt x x ≡ false
unfolding double_lt
double_lt_irrefl x = ground arith
