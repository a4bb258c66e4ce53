-- ===== src/Fatigue/Stress.antt =====
-- Stresses and the growth rate: the functions of backend/algorithms/crack_propagation.cpp that only
-- compute.
use ai_solo_coder_task_a.Double.{double_lt, magnitude}
use ai_solo_coder_task_a.Double.Arithmetic.{MathLibrary, add, div, double_le, mul, neg, sub}
use ai_solo_coder_task_a.Fatigue.{ParisLawParameters, XrdResidualStressData}
use ai_solo_coder_task_a.Prelude.{Bool, List, [], if◌then◌else◌, length, not, true, ℕ, ◌==◌, ◌∷◌}

module _ (lib : MathLibrary) (params : ParisLawParameters) where
  residual_parallel : ℕ
  residual_parallel = mul params.residual_stress_parallel params.residual_stress_calibration_factor

  residual_perp : ℕ
  residual_perp = mul params.residual_stress_perpendicular params.residual_stress_calibration_factor

  unfoldable pub calculate_stress_intensity : ℕ → ℕ → ℕ
  unfolding residual_parallel residual_perp
  calculate_stress_intensity crack_length stress =
      let k_sigma = add 0x3FF0000000000000 (
        div (add residual_parallel residual_perp)
          (add (mul 0x4000000000000000 (magnitude stress)) 0x3FF0000000000000)) in
      let effective_stress =
        if params.enable_residual_stress_correction
        then add (mul stress k_sigma) (mul 0x3FD3333333333333 residual_parallel)  -- 0.3
        else stress in
      mul (mul params.geometric_factor_y effective_stress)
        (lib.sqrt (mul 0x400921FB54442D18 crack_length))

  unfoldable pub calculate_effective_stress : ℕ → ℕ → ℕ
  unfolding residual_parallel residual_perp
  calculate_effective_stress applied_stress crack_angle_rad =
      let cos2 = mul (lib.cos crack_angle_rad) (lib.cos crack_angle_rad) in
      let sin2 = mul (lib.sin crack_angle_rad) (lib.sin crack_angle_rad) in
      let residual_on_crack = add (mul residual_parallel cos2) (mul residual_perp sin2) in
      if not params.enable_residual_stress_correction
      then applied_stress
      else add applied_stress (mul 0x3FD999999999999A residual_on_crack)  -- 0.4

  -- The two sums of `interpolate_xrd_data`: weighted_sum and total_weight.
  xrd_sums : ℕ → ℕ → ℕ → Bool → ℕ × ℕ → List XrdResidualStressData → ℕ × ℕ
  xrd_sums x y z parallel_component sums [] = sums
  xrd_sums x y z parallel_component (weighted_sum, total_weight) (dp ∷ points) =
      let dx = sub x dp.measurement_position_x in
      let dy = sub y dp.measurement_position_y in
      let dz = sub z dp.measurement_position_z in
      let dist = lib.sqrt (add (add (mul dx dx) (mul dy dy)) (mul dz dz)) in
      let two : ℕ = 0x4000000000000000 in
      let weight = lib.exp (div (mul (neg dist) dist) (mul (mul two two) two)) in
      let value = if parallel_component then dp.sigma_parallel else dp.sigma_perpendicular in
      let more : ℕ × ℕ = (add weighted_sum (mul weight value), add total_weight weight) in
      xrd_sums x y z parallel_component (if dp.is_valid then more else (weighted_sum, total_weight))
        points

  unfoldable pub interpolate_xrd_data : ℕ → ℕ → ℕ → Bool → ℕ
  unfolding xrd_sums residual_parallel residual_perp
  interpolate_xrd_data x y z parallel_component =
      let sums = xrd_sums x y z parallel_component (0, 0) params.xrd_calibration_data in
      if length params.xrd_calibration_data == 0
      then 0
      else if double_lt sums.1 0x3DDB7CDFD9D7BDBB  -- 1e-10
      then if parallel_component then residual_parallel else residual_perp
      else mul (div sums.0 sums.1) params.residual_stress_calibration_factor

  unfoldable pub calculate_residual_stress_at_point : ℕ → ℕ → ℕ → ℕ
  unfolding interpolate_xrd_data residual_parallel
  calculate_residual_stress_at_point x y z =
      if length params.xrd_calibration_data == 0
      then residual_parallel
      else interpolate_xrd_data x y z true

  unfoldable pub calculate_crack_growth_rate : ℕ → ℕ
  calculate_crack_growth_rate delta_k =
      if double_le delta_k 0 then 0 else mul params.paris_c (lib.pow delta_k params.paris_m)

  unfoldable pub critical_crack_length : ℕ
  critical_crack_length =
      div
        (lib.pow
          (div params.fracture_toughness (mul params.geometric_factor_y params.maximum_stress))
          0x4000000000000000)
        0x400921FB54442D18

  -- `delta_K` of a crack of length `a`.
  unfoldable pub stress_range : ℕ → ℕ
  unfolding calculate_effective_stress calculate_stress_intensity
  stress_range a =
      let sigma_max_eff = calculate_effective_stress params.maximum_stress 0 in
      let sigma_min_eff = calculate_effective_stress params.minimum_stress 0 in
      sub (calculate_stress_intensity a sigma_max_eff) (calculate_stress_intensity a sigma_min_eff)

  -- The parameter `t` is not used.
  unfoldable pub runge_kutta_step : ℕ → ℕ → ℕ → ℕ
  unfolding stress_range calculate_crack_growth_rate
  runge_kutta_step a t dt =
      mul (mul (calculate_crack_growth_rate (stress_range a)) params.cyclic_frequency) dt
