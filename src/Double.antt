-- ===== src/Double.antt =====
-- IEEE-754 numbers as bit patterns: the comparisons of `double`, and the conversion of a `float`.
pub mod Arithmetic
use ai_solo_coder_task_a.Prelude.{
  Bool, arith, false, if◌then◌else◌, leb, ltb, not, refl, suc, true, zero, ℕ, ◌%◌, ◌&&◌, ◌*◌, ◌+◌,
  ◌-◌, ◌/◌, ◌==◌, ◌^◌, ◌≡◌,
}

-- The exponent and fraction: the pattern without the sign.
abbrev pub magnitude : ℕ → ℕ
magnitude bits = bits % 2 ^ 63

abbrev pub is_negative : ℕ → Bool
is_negative bits = leb (2 ^ 63) bits

-- All exponent bits set, and a fraction.
abbrev pub is_nan : ℕ → Bool
is_nan bits = ltb (2047 * 2 ^ 52) (magnitude bits)

-- `a < b` of two numbers that are no NaN: the order of the patterns, turned round below zero. The two
-- zeros are equal.
abbrev ordered_lt : Bool → Bool → ℕ → ℕ → Bool
ordered_lt false false m n = ltb m n
ordered_lt true false m n = ltb 0 (m + n)
ordered_lt false true m n = false
ordered_lt true true m n = ltb n m

-- `a < b` on `double`: false if either is a NaN.
unfoldable pub double_lt : ℕ → ℕ → Bool
double_lt a b =
    not (is_nan a)
    && not (is_nan b)
    && ordered_lt (is_negative a) (is_negative b) (magnitude a) (magnitude b)

-- The position of the highest bit set of a number below 2 ^ fuel.
top_bit : ℕ → ℕ → ℕ
top_bit zero n = 0
top_bit (suc fuel) n = if leb (2 ^ fuel) n then fuel else top_bit fuel n

-- `static_cast<double>(f)`: exact, with subnormals normalised. `exponent` and `fraction` are those of
-- the `float`.
widen_parts : ℕ → ℕ → ℕ
unfolding top_bit
widen_parts exponent fraction =
    if exponent == 255
    then 2047 * 2 ^ 52 + fraction * 2 ^ 29
    else if not (exponent == 0)
    then (exponent + 896) * 2 ^ 52 + fraction * 2 ^ 29
    else if fraction == 0
    then 0
    else let top = top_bit 23 fraction in
      (top + 874) * 2 ^ 52 + (fraction - 2 ^ top) * 2 ^ (52 - top)

unfoldable pub widen : ℕ → ℕ
unfolding widen_parts
widen bits =
    (if leb (2 ^ 31) bits then 2 ^ 63 else 0) + widen_parts (bits / 2 ^ 23 % 2 ^ 8) (bits % 2 ^ 23)

-- 22.0f and the smallest subnormal, 2 ^ -149.
widen_runs : (widen 0x41B00000 ≡ 0x4036000000000000) × (widen 1 ≡ 0x36A0000000000000)
unfolding widen
widen_runs = (refl, refl)

-- 200.0 < 250.0, not the other way round; a NaN is below nothing.
double_lt_runs :
    (double_lt 0x4069000000000000 0x406F400000000000 ≡ true)
    × (double_lt 0x406F400000000000 0x4069000000000000 ≡ false)
    × (double_lt 0x4069000000000000 0x7FF8000000000000 ≡ false)
unfolding double_lt
double_lt_runs = (refl, refl, refl)

pub double_lt_irrefl : (a : ℕ) → double_lt a a ≡ false
unfolding double_lt
double_lt_irrefl a = ground arith

pub double_lt_trans :
    (a b c : ℕ) → double_lt a b ≡ true → double_lt b c ≡ true → double_lt a c ≡ true
unfolding double_lt
double_lt_trans a b c h k = ground arith
