-- ===== src/Decimal/Order.antt =====
-- The order of decimal values: reflexive, transitive, total; what compares equal cancels.
use native.Mathlib.Nat.{
  le_of_mul-le-mul_left, mul-le-mul_left, one-le-pow, pow-zero, pow-suc, add-suc, add-zero,
}
use crypt_tool.Base.{
  ℕ, zero, suc, ◌+◌, ◌*◌, ◌^◌, ◌≤◌, ◌<◌, ◌≡◌, refl, true, false, tests, arith, le→leb, leb→le,
}
use crypt_tool.Base.Int.{pos, pos_part, neg_part}
use crypt_tool.Decimal.{Decimal, le, eq, lt, add, neg, sub, abs, mul, mul_zero, min_dec, zero_dec}

pow_pos : (k : ℕ) → 0 < 10 ^ k
pow_pos k = one-le-pow k 10 (omega arith)

cross_trans :
    (a1 a2 b1 b2 c1 c2 x y z : ℕ)
    → 0 < y
    → a1 * y + b2 * x ≤ b1 * x + a2 * y
    → b1 * z + c2 * y ≤ c1 * y + b2 * z
    → a1 * z + c2 * x ≤ c1 * x + a2 * z
cross_trans a1 a2 b1 b2 c1 c2 x y z p h k =
    le_of_mul-le-mul_left {k = y} (omega (arith, mul-le-mul_left z h, mul-le-mul_left x k)) p

pub le_refl : (a : Decimal) → le a a ≡ true
unfolding le
le_refl a = omega tests

pub le_trans : (a b c : Decimal) → le a b ≡ true → le b c ≡ true → le a c ≡ true
unfolding le
le_trans a b c h k = le→leb _ _ (
    cross_trans (pos_part a.mantissa) (neg_part a.mantissa) (pos_part b.mantissa)
      (neg_part b.mantissa) (pos_part c.mantissa) (neg_part c.mantissa) (10 ^ a.places)
      (10 ^ b.places) (10 ^ c.places) (pow_pos b.places) (leb→le _ _ h) (leb→le _ _ k))

pub le_total : (a b : Decimal) → le a b ≡ false → le b a ≡ true
unfolding le
le_total a b h = ground arith

sub_eq : (a b : Decimal) → le a b ≡ true → le b a ≡ true → (sub a b).mantissa ≡ pos 0
unfolding le sub
sub_eq a b h k = ground arith

zero_gap :
    (d p m : Decimal) → d.mantissa ≡ pos 0 → le zero_dec m ≡ true → le (mul (abs d) p) m ≡ true
unfolding abs le
zero_gap d p m e h = rw (e, mul_zero d.places p) (ground arith)

-- Two values that equal a third have no distance, whatever it is weighted by.
pub gap_of_eq :
    (a b t p m : Decimal)
    → eq a t ≡ true
    → eq b t ≡ true
    → le zero_dec m ≡ true
    → le (mul (abs (sub a b)) p) m ≡ true
gap_of_eq a b t p m ha hb hm =
    zero_gap (sub a b) p m
      (sub_eq a b (le_trans a t b (ground arith) (ground arith))
        (le_trans b t a (ground arith) (ground arith)))
      hm

pow_add : (p q : ℕ) → 10 ^ (p + q) ≡ 10 ^ p * 10 ^ q
pow_add p zero = rw (add-zero, pow-zero) (omega arith)
pow_add p (suc q) = rw (add-suc, pow-suc, pow-suc, pow_add p q) (omega arith)

grown_parts : (x y s t u v : ℕ) → v * y + t ≤ s + u * y → v * (x * y) + t * x ≤ s * x + u * (x * y)
grown_parts x y s t u v h = omega (arith, mul-le-mul_left x h)

-- a - b is not negative if b ≤ a.
pub sub_nonneg : (a b : Decimal) → le b a ≡ true → le zero_dec (sub a b) ≡ true
unfolding le sub
sub_nonneg a b h = ground arith

diff_parts :
    (a b : Decimal)
    → le zero_dec b ≡ true
    → pos_part (sub a b).mantissa + neg_part a.mantissa * 10 ^ b.places
      ≤ pos_part a.mantissa * 10 ^ b.places + neg_part (sub a b).mantissa
unfolding le sub
diff_parts a b h = ground arith

scale_parts : (x y s t u v : ℕ) → s + u * y ≤ v * y + t → s * x + u * (x * y) ≤ v * (x * y) + t * x
scale_parts x y s t u v h = omega (arith, mul-le-mul_left x h)

places-sub : (a b : Decimal) → (sub a b).places ≡ a.places + b.places
unfolding sub
places-sub a b = refl

-- a - b is at most a if b is not negative.
pub sub-le : (a b : Decimal) → le zero_dec b ≡ true → le (sub a b) a ≡ true
unfolding le
sub-le a b h = le→leb _ _ (
    rw (places-sub, pow_add)
      (scale_parts (10 ^ a.places) (10 ^ b.places) (pos_part (sub a b).mantissa)
        (neg_part (sub a b).mantissa) (neg_part a.mantissa) (pos_part a.mantissa)
        (diff_parts a b h)))

-- Sums with a term taken away, or brought nearer to zero.
pub add-neg_nonneg : (a b : Decimal) → le b a ≡ true → le zero_dec (add a (neg b)) ≡ true
unfolding le add neg
add-neg_nonneg a b h = ground arith

pub add_nonpos :
    (a b : Decimal) → le b (abs a) ≡ true → lt a zero_dec ≡ true → le (add a b) zero_dec ≡ true
unfolding le add abs
add_nonpos a b h k = ground arith

places-add : (a b : Decimal) → (add a b).places ≡ a.places + b.places
unfolding add
places-add a b = refl

add_parts :
    (a b : Decimal)
    → le zero_dec b ≡ true
    → pos_part a.mantissa * 10 ^ b.places + neg_part (add a b).mantissa
      ≤ pos_part (add a b).mantissa + neg_part a.mantissa * 10 ^ b.places
unfolding le add
add_parts a b h = ground arith

neg_parts :
    (a b : Decimal)
    → le zero_dec b ≡ true
    → pos_part (add a (neg b)).mantissa + neg_part a.mantissa * 10 ^ b.places
      ≤ pos_part a.mantissa * 10 ^ b.places + neg_part (add a (neg b)).mantissa
unfolding le add neg
neg_parts a b h = ground arith

places-neg : (a : Decimal) → (neg a).places ≡ a.places
unfolding neg
places-neg a = refl

pub le-add : (a b : Decimal) → le zero_dec b ≡ true → le a (add a b) ≡ true
unfolding le
le-add a b h = le→leb _ _ (
    rw (places-add, pow_add)
      (grown_parts (10 ^ a.places) (10 ^ b.places) (pos_part (add a b).mantissa)
        (neg_part (add a b).mantissa) (neg_part a.mantissa) (pos_part a.mantissa)
        (add_parts a b h)))

pub add-neg-le : (a b : Decimal) → le zero_dec b ≡ true → le (add a (neg b)) a ≡ true
unfolding le neg
add-neg-le a b h = le→leb _ _ (
    rw (places-add, places-neg, pow_add)
      (scale_parts (10 ^ a.places) (10 ^ b.places) (pos_part (add a (neg b)).mantissa)
        (neg_part (add a (neg b)).mantissa) (neg_part a.mantissa) (pos_part a.mantissa)
        (neg_parts a b h)))

pub le_of_abs : (a b : Decimal) → lt zero_dec a ≡ true → le b (abs a) ≡ true → le b a ≡ true
unfolding le abs
le_of_abs a b h k = ground arith

pub abs_nonneg : (a : Decimal) → le zero_dec (abs a) ≡ true
unfolding le abs
abs_nonneg a = omega tests

pub lt_asymm : (a b : Decimal) → lt a b ≡ true → lt b a ≡ true → ⊥
lt_asymm a b h k = ground (arith, le_total b a)

-- The smaller of two values is at most each.
pub min_dec-le : (a b : Decimal) → (le (min_dec a b) a ≡ true) × (le (min_dec a b) b ≡ true)
min_dec-le a b = ground (arith, le_refl a, le_refl b, le_total b a, le_total a b)
