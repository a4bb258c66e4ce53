-- ===== src/Dem/Rates/Bounds.antt =====
-- The rates that lie between bounds whatever the particles do.
use ai_solo_coder_task_a.Dem.{DemLibrary, DemSimulation}
use ai_solo_coder_task_a.Dem.Rates.{
  calculate_bonding_strength, calculate_filling_rate, calculate_surface_smoothness,
}
use ai_solo_coder_task_a.Double.{double_lt}
use ai_solo_coder_task_a.Double.Arithmetic.{double_le, double_max, double_min}
use ai_solo_coder_task_a.Prelude.{arith, either, refl, true, ℕ, ◌≡◌}

abbrev one : ℕ
one = 0x3FF0000000000000

zero-le-one : double_le 0 one ≡ true
unfolding double_le double_lt
zero-le-one = refl

half-le-one : double_le 0x3FE0000000000000 one ≡ true
unfolding double_le double_lt
half-le-one = refl

double_min-le : (x : ℕ) → double_le (double_min one x) one ≡ true
unfolding double_lt double_le double_min
double_min-le x = ground arith

le-double_max : (x : ℕ) → double_le 0 (double_max 0 x) ≡ true
unfolding double_lt double_le double_max
le-double_max x = ground arith

module _ {Json : Type 0} (lib : DemLibrary) (s : DemSimulation Json) where
  -- The filling rate and the bonding strength are numbers of at most 1, and the smoothness is a number
  -- of at least 0: none of the three is ever a NaN.
  pub rates_bounded :
      (double_le (calculate_filling_rate lib s) 0x3FF0000000000000 ≡ true)
      × (double_le (calculate_bonding_strength lib s) 0x3FF0000000000000 ≡ true)
      × (double_le 0 (calculate_surface_smoothness lib s) ≡ true)
  unfolding calculate_filling_rate calculate_bonding_strength calculate_surface_smoothness
  rates_bounded =
      let at_most = λ (x : ℕ). double_le x one ≡ true in
      let at_least = λ (x : ℕ). double_le 0 x ≡ true in
      (
        either at_most _ zero-le-one (either at_most _ (double_min-le _) zero-le-one),
        either at_most _ half-le-one (double_min-le _),
        either at_least _ zero-le-one (le-double_max _),
      )
