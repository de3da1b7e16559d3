-- ===== src/Decimal/Rounding.antt =====
-- Rounding to whole numbers.
use crypt_tool.Base.{ℕ, zero, suc, ◌+◌, ◌-◌, ◌*◌, ◌/◌, ◌^◌, ◌≤◌, ◌<◌, ◌≡◌, true, arith}
use crypt_tool.Base.Int.{ℤ, pos, negsuc, ◌-ℤ◌}
use crypt_tool.Decimal.{Decimal, lit, le, neg, round_down, round_up, round_floor}
use native.Mathlib.Nat.{div-mul-le_self, lt-div-mul-add, le-div_iff_mul-le}

ten_pos : (p : ℕ) → 0 < 10 ^ p
ten_pos zero = omega arith
ten_pos (suc p) = omega (arith, ten_pos p)

whole_below : (m p : ℕ) → m / 10 ^ p * 10 ^ p + 0 ≤ m * 1 + 0
whole_below m p = omega (arith, div-mul-le_self m (10 ^ p))

whole_above : (m t : ℕ) → 0 < t → m < (suc m + t - 1) / t * t
whole_above m t h = omega (arith, lt-div-mul-add {a = suc m + t - 1} {b = t} h)

-- `to_integral_value` with ROUND_FLOOR is not above its argument.
pub round_floor-le : (a : Decimal) → le (round_floor a) a ≡ true
unfolding round_floor round_down round_up le neg ◌-ℤ◌
round_floor-le a = below a.mantissa a.places
  where
    below :
        (m : ℤ) (p : ℕ)
        → le
            (round_floor (record { mantissa = m; places = p }))
            (record { mantissa = m; places = p })
          ≡ true
    below (pos m) p = ground (arith, whole_below m p)
    below (negsuc m) p = ground (arith, whole_above m (10 ^ p) (ten_pos p))

greatest_below : (k m t : ℕ) → 0 < t → k * t ≤ m → k ≤ m / t
greatest_below k m t h = (le-div_iff_mul-le {k = t} {x = k} {y = m} h).1

-- No greater whole number is below it.
pub round_floor-greatest :
    (a : Decimal) (k : ℕ) → le (lit k 0) a ≡ true → le (lit k 0) (round_floor a) ≡ true
unfolding round_floor round_down round_up le neg ◌-ℤ◌
round_floor-greatest a k h = greatest a.mantissa a.places h
  where
    greatest :
        (m : ℤ) (p : ℕ)
        → let b : Decimal = record { mantissa = m; places = p } in
          le (lit k 0) b ≡ true → le (lit k 0) (round_floor b) ≡ true
    greatest (pos m) p e = ground (arith, greatest_below k m (10 ^ p) (ten_pos p))
    greatest (negsuc m) p e = absurd (ground arith)

-- It is whole.
pub round_floor-whole : (a : Decimal) → (round_floor a).places ≡ 0
unfolding round_floor round_down round_up neg
round_floor-whole a = ground arith
