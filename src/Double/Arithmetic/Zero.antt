-- ===== src/Double/Arithmetic/Zero.antt =====
-- Products and quotients of zero.
use native.Mathlib.Nat.{zero-mul}
use ai_solo_coder_task_a.Double.{double_lt, is_nan, is_negative}
use ai_solo_coder_task_a.Double.Arithmetic.{div, is_infinite, mul, of_nat, round, units, with_sign}
use ai_solo_coder_task_a.Prelude.{
  Bool, either, false, inl, inr, refl, subst, sym, true, ℕ, ◌^◌, ◌||◌, ◌≡◌, ◌⊎◌,
}

-- A zero, of either sign, or a NaN.
abbrev pub IsNought : ℕ → Type 0
IsNought x = (x ≡ 0) ⊎ ((x ≡ 0x8000000000000000) ⊎ (x ≡ 0x7FF8000000000000))

signed_zero : (s : Bool) → IsNought (with_sign s (round 0 (2 ^ 1074)))
unfolding round
signed_zero true = inr (inl refl)
signed_zero false = inl refl

pub zero_mul : (x : ℕ) → IsNought (mul 0 x)
unfolding mul
zero_mul x = either IsNought (is_nan 0 || is_nan x) (inr (inr refl)) (
    either IsNought (is_infinite 0 || is_infinite x) (inr (inr refl)) (
      subst (λ n. IsNought (with_sign (is_negative x) (round n (2 ^ 1074))))
        (sym (zero-mul (units x))) (signed_zero (is_negative x))))

-- Neither below nor above zero.
abbrev pub IsUnsigned : ℕ → Type 0
IsUnsigned x = (double_lt x 0 ≡ false) × (double_lt 0 x ≡ false)

-- Divided by 3600.0 it is neither below nor above zero.
pub IsNought-div : (x : ℕ) → IsNought x → IsUnsigned (div x 0x40AC200000000000)
unfolding div double_lt
IsNought-div x (inl e) = subst (λ y. IsUnsigned (div y 0x40AC200000000000)) (sym e) (refl, refl)
IsNought-div x (inr (inl e)) =
    subst (λ y. IsUnsigned (div y 0x40AC200000000000)) (sym e) (refl, refl)
IsNought-div x (inr (inr e)) =
    subst (λ y. IsUnsigned (div y 0x40AC200000000000)) (sym e) (refl, refl)

pub of_nat-zero : of_nat 0 ≡ 0
unfolding of_nat
of_nat-zero = refl
