-- ===== src/Decimal/Examples.antt =====
-- The arithmetic of `decimal` on concrete values: 28 digits, a tie to the even one.
use crypt_tool.Base.{◌≡◌, refl, true, false}
use crypt_tool.Decimal.{lit, mul, div, eq, le}

third : div (lit 1 0) (lit 3 0) ≡ lit 3333333333333333333333333333 28
unfolding div
third = refl

two_thirds : div (lit 2 0) (lit 3 0) ≡ lit 6666666666666666666666666667 28
unfolding div
two_thirds = refl

-- A product of a quotient is rounded too: back to the dividend here, and above it there.
back : eq (mul (div (lit 1000 0) (lit 12 1)) (lit 12 1)) (lit 1000 0) ≡ true
unfolding div mul le
back = refl

above : le (mul (div (lit 5 0) (lit 3 0)) (lit 3 0)) (lit 5 0) ≡ false
unfolding div mul le
above = refl
