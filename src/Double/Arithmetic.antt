-- ===== src/Double/Arithmetic.antt =====
-- The operators of `double` on bit patterns, in the one rounding mode that the program runs in: to the
-- nearest number, and of two to the even one. The program looks at no NaN's payload: every operation
-- that gives a NaN gives the same. What <cmath> computes is the parameter `MathLibrary`.
pub mod Zero
use ai_solo_coder_task_a.Double.{double_lt, is_nan, is_negative, magnitude}
use ai_solo_coder_task_a.Prelude.{
  Bool, false, if◌then◌else◌, leb, ltb, min, not, refl, suc, true, zero, ℕ, ◌%◌, ◌&&◌, ◌*◌, ◌+◌,
  ◌-◌, ◌/◌, ◌==◌, ◌^◌, ◌||◌, ◌≡◌,
}

pub record MathLibrary : Type 0 where
  pub sqrt : ℕ → ℕ
  pub exp : ℕ → ℕ
  pub cos : ℕ → ℕ
  pub sin : ℕ → ℕ
  pub pow : ℕ → ℕ → ℕ
  pub atan2 : ℕ → ℕ → ℕ

abbrev infinity : ℕ
infinity = 2047 * 2 ^ 52

abbrev quiet_nan : ℕ
quiet_nan = infinity + 2 ^ 51

abbrev is_infinite : ℕ → Bool
is_infinite bits = magnitude bits == infinity

abbrev with_sign : Bool → ℕ → ℕ
with_sign negative m = if negative then m + 2 ^ 63 else m

abbrev xor : Bool → Bool → Bool
xor true b = not b
xor false b = b

-- The magnitude of a finite number, as a multiple of 2 ^ -1074.
units : ℕ → ℕ
units bits =
    let exponent = magnitude bits / 2 ^ 52 in
    let fraction = magnitude bits % 2 ^ 52 in
    if exponent == 0 then fraction else (2 ^ 52 + fraction) * 2 ^ (exponent - 1)

-- The length in bits of a number below 2 ^ (2 ^ k).
bit_length : ℕ → ℕ → ℕ
bit_length zero n = n
bit_length (suc k) n =
    let long = leb (2 ^ 2 ^ k) n in
    (if long then 2 ^ k else 0) + bit_length k (if long then n / 2 ^ 2 ^ k else n)

nearest_even : ℕ → ℕ → ℕ
nearest_even n d =
    let q = n / d in
    let r = n % d in if ltb d (2 * r) || (2 * r == d && q % 2 == 1) then q + 1 else q

-- The number nearest to n / d times 2 ^ -1074. Below 2 ^ 53 units a pattern is its number of units;
-- above, each doubling adds one to the exponent.
round : ℕ → ℕ → ℕ
unfolding bit_length nearest_even
round n d =
    let shift = bit_length 12 (n / d) - 53 in
    min infinity (shift * 2 ^ 52 + nearest_even n (d * 2 ^ shift))

add_finite : Bool → ℕ → Bool → ℕ → ℕ
unfolding round
add_finite s m t n =
    if xor s t
    then if m == n
      then 0
      else if ltb n m
      then with_sign s (round (m - n) 1)
      else with_sign t (round (n - m) 1)
    else with_sign s (round (m + n) 1)

unfoldable pub neg : ℕ → ℕ
neg a = with_sign (not (is_negative a)) (magnitude a)

unfoldable pub add : ℕ → ℕ → ℕ
unfolding add_finite units
add a b =
    if is_nan a || is_nan b
    then quiet_nan
    else if is_infinite a
    then if is_infinite b && xor (is_negative a) (is_negative b) then quiet_nan else a
    else if is_infinite b
    then b
    else add_finite (is_negative a) (units a) (is_negative b) (units b)

unfoldable pub sub : ℕ → ℕ → ℕ
unfolding add neg
sub a b = add a (neg b)

unfoldable pub mul : ℕ → ℕ → ℕ
unfolding round units
mul a b =
    let sign = xor (is_negative a) (is_negative b) in
    if is_nan a || is_nan b
    then quiet_nan
    else if is_infinite a || is_infinite b
    then if magnitude a == 0 || magnitude b == 0 then quiet_nan else with_sign sign infinity
    else with_sign sign (round (units a * units b) (2 ^ 1074))

unfoldable pub div : ℕ → ℕ → ℕ
unfolding round units
div a b =
    let sign = xor (is_negative a) (is_negative b) in
    if is_nan a || is_nan b
    then quiet_nan
    else if is_infinite a
    then if is_infinite b then quiet_nan else with_sign sign infinity
    else if is_infinite b
    then with_sign sign 0
    else if magnitude b == 0
    then if magnitude a == 0 then quiet_nan else with_sign sign infinity
    else with_sign sign (round (units a * 2 ^ 1074) (units b))

-- The conversion of an integer that is not negative.
unfoldable pub of_nat : ℕ → ℕ
unfolding round
of_nat n = round (n * 2 ^ 1074) 1

-- The conversion to an integer of a number that is not negative.
unfoldable pub to_nat : ℕ → ℕ
unfolding units
to_nat bits = units bits / 2 ^ 1074

-- `a <= b`, false if either is a NaN.
unfoldable pub double_le : ℕ → ℕ → Bool
double_le a b = not (is_nan a) && not (is_nan b) && not (double_lt b a)

-- `std::min(a, b)` and `std::max(a, b)`: the first, unless the second is less or greater.
unfoldable pub double_min : ℕ → ℕ → ℕ
double_min a b = if double_lt b a then b else a

unfoldable pub double_max : ℕ → ℕ → ℕ
double_max a b = if double_lt a b then b else a

-- 0.1 + 0.2, 0.1 * 3.0, 1.0 / 3.0, 0.3 - 0.1, 10800.0, and the sum that overflows.
arithmetic_runs :
    (add 0x3FB999999999999A 0x3FC999999999999A ≡ 0x3FD3333333333334)
    × (mul 0x3FB999999999999A 0x4008000000000000 ≡ 0x3FD3333333333334)
    × (div 0x3FF0000000000000 0x4008000000000000 ≡ 0x3FD5555555555555)
    × (sub 0x3FD3333333333333 0x3FB999999999999A ≡ 0x3FC9999999999999)
    × (of_nat 10800 ≡ 0x40C5180000000000)
    × (add 0x7FEFFFFFFFFFFFFF 0x7FEFFFFFFFFFFFFF ≡ 0x7FF0000000000000)
unfolding add sub mul div of_nat
arithmetic_runs = (refl, refl, refl, refl, refl, refl)
