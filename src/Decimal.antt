-- ===== src/Decimal.antt =====
-- `decimal.Decimal`, as the program uses it: a finite decimal fraction by its numeric value.
-- Sums and differences are exact; a product and a quotient have 28 significant digits, rounded
-- half to even, as in the default context. Signs of zero, NaN, infinities and the trailing zeros that
-- `Decimal` remembers are left out. Finite floats are decimal fractions too, and are read so.
pub mod Order
pub mod Rounding
mod Examples
use crypt_tool.Base.{
  ℕ, zero, suc, ◌+◌, ◌-◌, ◌*◌, ◌/◌, ◌%◌, ◌^◌, ◌≡◌, refl, Bool, true, ◌&&◌, not, ltb, leb, ◌==◌,
  if◌then◌else◌, arith,
}
use crypt_tool.Base.Int.{ℤ, pos, negsuc, pos_part, neg_part, sub_ℕ, ◌+ℤ◌, ◌-ℤ◌, ◌*ℤ◌, magnitude}
use mathlib.Core.Bool.{beq}

-- mantissa / 10 ^ places
pub record Decimal : Type 0 where
  pub mantissa : ℤ
  pub places : ℕ

-- A literal: `lit m p` is m / 10 ^ p.
abbrev pub lit : ℕ → ℕ → Decimal
lit m p = record { mantissa = pos m; places = p }

abbrev pub zero_dec : Decimal
zero_dec = lit 0 0

abbrev pub one_dec : Decimal
one_dec = lit 1 0

-- Both sides of a comparison at a common denominator, the negative parts moved across.
abbrev left_of : Decimal → Decimal → ℕ
left_of a b = pos_part a.mantissa * 10 ^ b.places + neg_part b.mantissa * 10 ^ a.places

unfoldable pub le : Decimal → Decimal → Bool
le a b =
    leb (left_of a b) (pos_part b.mantissa * 10 ^ a.places + neg_part a.mantissa * 10 ^ b.places)

abbrev pub lt : Decimal → Decimal → Bool
lt a b = not (le b a)

-- `a == b`, which compares values.
abbrev pub eq : Decimal → Decimal → Bool
eq a b = le a b && le b a

unfoldable pub add : Decimal → Decimal → Decimal
unfolding ◌+ℤ◌ ◌*ℤ◌
add a b = record {
  mantissa = a.mantissa *ℤ pos (10 ^ b.places) +ℤ b.mantissa *ℤ pos (10 ^ a.places);
  places = a.places + b.places;
}

unfoldable pub sub : Decimal → Decimal → Decimal
unfolding ◌-ℤ◌ ◌*ℤ◌
sub a b = record {
  mantissa = a.mantissa *ℤ pos (10 ^ b.places) -ℤ b.mantissa *ℤ pos (10 ^ a.places);
  places = a.places + b.places;
}

unfoldable pub neg : Decimal → Decimal
unfolding ◌-ℤ◌
neg a = record a { mantissa = pos 0 -ℤ a.mantissa }

-- `abs(a)`
unfoldable pub abs : Decimal → Decimal
abs a = record a { mantissa = pos (magnitude a.mantissa) }

-- `max(a, b)` and `min(a, b)`: the first of equal values, as in Python.
abbrev pub max_dec : Decimal → Decimal → Decimal
max_dec a b = if lt a b then b else a

abbrev pub min_dec : Decimal → Decimal → Decimal
min_dec a b = if lt b a then b else a

-- Decimal digits of a number; the fuel n + 1 is enough for n.
digits : ℕ → ℕ → ℕ
digits zero n = 0
digits (suc f) n = let rest = digits f (n / 10) in if ltb n 10 then 1 else 1 + rest

-- n / d to the nearest whole number, a tie to the even one.
half_even : ℕ → ℕ → ℕ
half_even n d =
    let q = n / d in
    let twice = 2 * (n % d) in if ltb twice d then q else if ltb d twice then q + 1 else q + q % 2

-- m / 10 ^ places with k of its digits rounded away, half to even.
cut : ℕ → ℕ → ℕ → Decimal
unfolding half_even
cut m places k = lit (half_even m (10 ^ k) * 10 ^ (k - places)) (places - k)

-- The value that the default context keeps of an exact one: 28 significant digits.
rounded : Decimal → Decimal
unfolding digits cut neg
rounded a =
    let m = magnitude a.mantissa in
    let k = digits (suc m) m - 28 in
    if k == 0
    then a
    else if neg_part a.mantissa == 0
    then cut m a.places k
    else neg (cut m a.places k)

unfoldable pub mul : Decimal → Decimal → Decimal
unfolding ◌*ℤ◌ rounded
mul a b = rounded (record { mantissa = a.mantissa *ℤ b.mantissa; places = a.places + b.places })

rounded_zero : (n : ℕ) → rounded (lit 0 n) ≡ lit 0 n
unfolding rounded digits
rounded_zero n = refl

times_zero : (z : ℤ) → pos 0 *ℤ z ≡ pos 0
unfolding ◌*ℤ◌
times_zero (pos n) = ground arith
times_zero (negsuc n) = ground arith

pub mul_zero : (n : ℕ) (a : Decimal) → mul (lit 0 n) a ≡ lit 0 (n + a.places)
unfolding mul
mul_zero n a = rw (times_zero a.mantissa, rounded_zero (n + a.places))

-- n / d scaled by 10 ^ (up - down).
scaled : ℕ → ℕ → ℕ → ℕ → ℕ
unfolding half_even
scaled n d up down = half_even (n * 10 ^ up) (d * 10 ^ down)

-- 10 ^ (up - down) scales n / d to 28 or 29 digits; in the second case one digit fewer is kept.
div_magnitude : ℕ → ℕ → ℤ → Decimal
unfolding scaled
div_magnitude n d shift =
    let up = pos_part shift in
    let down = neg_part shift in
    record { mantissa = pos (scaled n d up down * 10 ^ down); places = up }

quotient : ℕ → ℕ → Decimal
unfolding digits div_magnitude ◌-ℤ◌
quotient n d =
    let shift = sub_ℕ (28 + digits (suc d) d) (digits (suc n) n) in
    let wide = leb (d * 10 ^ (28 + neg_part shift)) (n * 10 ^ pos_part shift) in
    if n == 0 then zero_dec else div_magnitude n d (if wide then shift -ℤ pos 1 else shift)

-- `a / b`; every caller excludes b = 0.
unfoldable pub div : Decimal → Decimal → Decimal
unfolding quotient neg
div a b =
    let q =
      quotient (magnitude a.mantissa * 10 ^ b.places) (magnitude b.mantissa * 10 ^ a.places) in
    if beq (neg_part a.mantissa == 0) (neg_part b.mantissa == 0) then q else neg q

-- `to_integral_value` with ROUND_DOWN (towards zero) and with ROUND_UP (away from zero).
unfoldable pub round_down : Decimal → Decimal
unfolding neg
round_down a =
    let whole = lit (magnitude a.mantissa / 10 ^ a.places) 0 in
    if neg_part a.mantissa == 0 then whole else neg whole

unfoldable pub round_up : Decimal → Decimal
unfolding neg
round_up a =
    let whole = lit ((magnitude a.mantissa + 10 ^ a.places - 1) / 10 ^ a.places) 0 in
    if neg_part a.mantissa == 0 then whole else neg whole

-- `to_integral_value` with ROUND_FLOOR (towards minus infinity).
unfoldable pub round_floor : Decimal → Decimal
unfolding round_down round_up
round_floor a = if neg_part a.mantissa == 0 then round_down a else round_up a

-- `a ** n` for a whole n.
unfoldable pub pow : Decimal → ℕ → Decimal
pow a zero = one_dec
pow a (suc n) = mul (pow a n) a
