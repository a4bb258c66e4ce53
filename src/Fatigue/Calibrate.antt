-- ===== src/Fatigue/Calibrate.antt =====
-- The calibrations of backend/algorithms/crack_propagation.cpp, and `predict_with_history`.
pub mod Ranges
use ai_solo_coder_task_a.Common.{CrackInfo}
use ai_solo_coder_task_a.Double.{double_lt, magnitude}
use ai_solo_coder_task_a.Double.Arithmetic.{
  MathLibrary, add, div, double_max, double_min, mul, of_nat, sub,
}
use ai_solo_coder_task_a.Fatigue.{ParisLawParameters, ParisLawResult, XrdResidualStressData}
use ai_solo_coder_task_a.Fatigue.Growth.{hour}
use ai_solo_coder_task_a.Fatigue.Predict.{last_or, predict}
use ai_solo_coder_task_a.Outcome.{Outcome}
use ai_solo_coder_task_a.Prelude.{
  List, [], if◌then◌else◌, leb, length, ltb, map, ℕ, ◌&&◌, ◌+◌, ◌==◌, ◌∷◌,
}

-- std::max(low, std::min(high, x))
unfoldable pub clamp : ℕ → ℕ → ℕ → ℕ
clamp low high x = double_max low (double_min high x)

-- The sums of the valid measurements, and how many there are.
unfoldable pub sum_valid : ℕ × ℕ × ℕ → List XrdResidualStressData → ℕ × ℕ × ℕ
sum_valid sums [] = sums
sum_valid (sum_parallel, sum_perp, valid_count) (dp ∷ points) =
    let more : ℕ × ℕ × ℕ =
      (add sum_parallel dp.sigma_parallel, add sum_perp dp.sigma_perpendicular, valid_count + 1) in
    sum_valid (if dp.is_valid then more else (sum_parallel, sum_perp, valid_count)) points

unfoldable pub calibrate_with_xrd :
    List XrdResidualStressData → ParisLawParameters → ParisLawParameters
unfolding sum_valid clamp
calibrate_with_xrd xrd_data params =
    let sums = sum_valid (0, 0, 0) xrd_data in
    let avg_parallel = div sums.0 (of_nat sums.2) in
    let avg_perp = div sums.1 (of_nat sums.2) in
    let known = record params { xrd_calibration_data = xrd_data } in
    let factor =
      clamp 0x3FE0000000000000 0x4000000000000000  -- 0.5 and 2.0
        (div avg_parallel params.residual_stress_parallel) in
    let old_factor = params.residual_stress_calibration_factor in
    let is_rated = double_lt 0x3EB0C6F7A0B5ED8D (magnitude params.residual_stress_parallel) in
    if length xrd_data == 0
    then params
    else if ltb 0 sums.2
    then record known {
      residual_stress_calibration_factor = if is_rated then factor else old_factor;  -- above 1e-6
      residual_stress_parallel = avg_parallel;
      residual_stress_perpendicular = avg_perp;
    }
    else known

module _ (lib : MathLibrary) where
  -- What `calibrate_with_measurement` makes of the first and last entries of its two vectors.
  measured : ℕ → ℕ → ℕ → ℕ → ParisLawParameters → ParisLawParameters
  unfolding clamp
  measured first_time last_time first_length last_length params =
      let dt = sub last_time first_time in
      let da = sub last_length first_length in
      let avg_length = div (add last_length first_length) 0x4000000000000000 in
      let delta_stress = sub params.maximum_stress params.minimum_stress in
      let delta_k =
        mul (mul params.geometric_factor_y delta_stress)
          (lib.sqrt (mul 0x400921FB54442D18 avg_length)) in
      let cycles = mul (mul params.cyclic_frequency dt) hour in
      let measured_da_dn = div da cycles in
      let c =
        clamp 0x3D719799812DEA11 0x3E45798EE2308C3A  -- 1e-12 and 1e-8
          (div measured_da_dn (lib.pow delta_k params.paris_m)) in
      if double_lt 0 dt && double_lt 0 da && double_lt 0 delta_k
      then record params { paris_c = c }
      else params

  unfoldable pub calibrate_with_measurement :
      List ℕ → List ℕ → ParisLawParameters → ParisLawParameters
  unfolding measured
  calibrate_with_measurement (t0 ∷ t1 ∷ times) (a0 ∷ a1 ∷ lengths) params =
      measured t0 (last_or times t1) a0 (last_or lengths a1) params
  calibrate_with_measurement times lengths params = params

  -- `hours` stands for the conversion of a time to whole hours since the epoch, which the clock of the
  -- library defines, and from there to a `double`.
  unfoldable pub predict_with_history :
      (ℕ → ℕ)
      → ParisLawParameters
      → CrackInfo
      → List CrackInfo
      → ℕ
      → Outcome (ParisLawParameters × ParisLawResult)
  unfolding calibrate_with_measurement
  predict_with_history hours params crack history time_horizon_hours =
      let times = map (λ (c : CrackInfo). hours c.detected_at) history in
      let lengths = map (λ (c : CrackInfo). c.total_length) history in
      let calibrated =
        if leb 2 (length history)
        then calibrate_with_measurement times lengths params
        else params in
      predict lib calibrated crack time_horizon_hours 100
