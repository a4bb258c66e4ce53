-- ===== src/Examples/Fatigue.antt =====
-- Runs of the prediction of crack growth.
-- A library that answers with simple numbers: it is not that of C++.
use ai_solo_coder_task_a.Common.{CrackInfo}
use ai_solo_coder_task_a.Double.{double_lt}
use ai_solo_coder_task_a.Double.Arithmetic.{MathLibrary, add, div, double_le, mul, of_nat, sub}
use ai_solo_coder_task_a.Double.Arithmetic.Zero.{IsUnsigned}
use ai_solo_coder_task_a.Examples.Database.{one_crack}
use ai_solo_coder_task_a.Fatigue.{ParisLawParameters, ParisLawResult, XrdResidualStressData}
use ai_solo_coder_task_a.Fatigue.Calibrate.{calibrate_with_measurement, calibrate_with_xrd}
use ai_solo_coder_task_a.Fatigue.Calibrate.Ranges.{HasSafeC, HasSafeFactor, calibrations_bounded}
use ai_solo_coder_task_a.Fatigue.Growth.{estimate_remaining_life, hour}
use ai_solo_coder_task_a.Fatigue.Growth.Ends.{estimate_remaining_life-ends, time_at}
use ai_solo_coder_task_a.Fatigue.Predict.{
  conclude, grow, growth, predict, predict_loop, progress, record_step, start_length, step_seconds,
  with_first_length,
}
use ai_solo_coder_task_a.Fatigue.Predict.Risk.{predict-slow}
use ai_solo_coder_task_a.Fatigue.Predict.Risk.First.{FailsFirst, predict-first_step}
use ai_solo_coder_task_a.Fatigue.Predict.Series.{
  AllLong, predict-returned, predict_series, result_for, result_series,
}
use ai_solo_coder_task_a.Fatigue.Stress.{critical_crack_length, runge_kutta_step}
use ai_solo_coder_task_a.Outcome.{returned}
use ai_solo_coder_task_a.Prelude.{
  [], arith, get_or, length, min, refl, some, suc, true, ℕ, ◌*◌, ◌/◌, ◌<◌, ◌^◌, ◌∷◌, ◌≡◌, ◌≢◌, ◌≤◌,
  ◌⊎◌,
}

abbrev plain_library : MathLibrary
plain_library = record {
  sqrt = λ x. x;
  exp = λ x. 0x3FF0000000000000;
  cos = λ x. 0x3FF0000000000000;
  sin = λ x. 0;
  pow = λ x y. mul x x;
  atan2 = λ y x. 0;
}

-- The default parameters with a C of 0.
abbrev still : ParisLawParameters
still = record {
  paris_c = 0;
  paris_m = 0x4008000000000000;
  stress_ratio_r = 0x3FB999999999999A;
  initial_crack_length = 0;
  maximum_stress = 0x4177D78400000000;
  minimum_stress = 0x414312D000000000;
  residual_stress_parallel = 0xC180B07600000000;
  residual_stress_perpendicular = 0xC17312D000000000;
  residual_stress_calibration_factor = 0x3FF0000000000000;
  fracture_toughness = 0x412E848000000000;
  geometric_factor_y = 0x3FF0000000000000;
  cyclic_frequency = 0x3F1845C8A0CE5129;
  enable_residual_stress_correction = true;
  xrd_calibration_data = [];
}

-- A tenth of a millimetre, and ten metres.
abbrev short_crack : CrackInfo
short_crack = record one_crack { total_length = 0x3F1A36E2EB1C432D }

abbrev long_crack : CrackInfo
long_crack = record one_crack { total_length = 0x4024000000000000 }

estimate_remaining_life-ends_example :
    (estimate_remaining_life plain_library still 1 2 ≡ some 0)
    ⊎ ((n : ℕ) × (n ≤ 27778)
        × (estimate_remaining_life plain_library still 1 2 ≡ some (div (time_at n 0) hour)))
estimate_remaining_life-ends_example = estimate_remaining_life-ends plain_library still 1 2

fits : 720 * 1 < 2 ^ 31
fits = omega arith

short_sound :
    double_lt
      (start_length short_crack)
      (critical_crack_length plain_library (with_first_length still short_crack))
    ≡ true
unfolding double_lt critical_crack_length div mul
short_sound = refl

short_slow :
    double_lt
      (runge_kutta_step plain_library
        (with_first_length still short_crack)
        (start_length short_crack)
        0
        hour)
      0x3CD203AF9EE75616
    ≡ true
unfolding double_lt double_le runge_kutta_step add sub div mul
short_slow = refl

long_fails : FailsFirst plain_library still long_crack 720 1
unfolding double_lt double_le runge_kutta_step add sub div mul growth critical_crack_length
    step_seconds of_nat
long_fails = refl

short_whole :
    length
      (progress plain_library (with_first_length still short_crack) short_crack 720 1).crack_length
    ≡ 2
unfolding double_lt double_le runge_kutta_step add sub div mul growth critical_crack_length
    step_seconds of_nat progress predict_loop record_step grow
short_whole = refl

-- What `predict` returns for the short crack, and for the long one.
abbrev short_result : ParisLawResult
short_result =
    result_for plain_library still short_crack 720 1
      (predict-returned plain_library still short_crack 720 1 (omega arith) fits).0

abbrev long_result : ParisLawResult
long_result =
    result_for plain_library still long_crack 720 1
      (predict-returned plain_library still long_crack 720 1 (omega arith) fits).0

short_long : length short_result.crack_length ≡ 2
unfolding conclude
short_long = short_whole

predict-slow_example :
    (short_result.time_to_failure_hours ≡ 0x3FF0000000000000)
    × (short_result.risk_level ≡ "CRITICAL")
predict-slow_example =
    predict-slow plain_library still short_crack 720 1 (omega arith) fits
      (with_first_length still short_crack) short_result
      (predict-returned plain_library still short_crack 720 1 (omega arith) fits).2 short_long
      short_sound short_slow

predict-first_step_example :
    (length long_result.crack_length ≡ 1)
    × IsUnsigned long_result.time_to_failure_hours
    × (long_result.risk_level ≢ "CRITICAL")
predict-first_step_example =
    predict-first_step plain_library still long_crack 720 1 (omega arith) fits (omega arith)
      long_fails (with_first_length still long_crack) long_result
      (predict-returned plain_library still long_crack 720 1 (omega arith) fits).2

predict_series_example :
    (r : ParisLawResult) × (predict plain_library still short_crack 720 1
      ≡ returned (with_first_length still short_crack, r))
    × (r.parameters ≡ still)
    × ((n : ℕ) × (n ≤ 1)
        × AllLong (suc n) (result_series r)
        × (let place = min (min 1 (720 * 1 / 720)) n in
            (r.predicted_length_720h ≡ get_or r.crack_length place 0)
            × (r.predicted_depth_720h ≡ get_or r.crack_depth place 0)
            × (r.predicted_width_720h ≡ get_or r.crack_width place 0)))
predict_series_example = predict_series plain_library still short_crack 720 1 (omega arith) fits

-- Two measurements an hour apart, and one XRD measurement that is valid.
abbrev xrd_point : XrdResidualStressData
xrd_point = record {
  measurement_position_x = 0;
  measurement_position_y = 0;
  measurement_position_z = 0;
  sigma_parallel = 0xC180B07600000000;
  sigma_perpendicular = 0xC17312D000000000;
  psi_angle_deg = 0x4046800000000000;
  measurement_error = 0x413E848000000000;
  is_valid = true;
}

calibrations_bounded_example :
    HasSafeC still (
      calibrate_with_measurement plain_library
        (0 ∷ 0x3FF0000000000000 ∷ [])
        (0x3F1A36E2EB1C432D ∷ 0x4024000000000000 ∷ [])
        still)
    × HasSafeFactor still (calibrate_with_xrd (xrd_point ∷ []) still)
calibrations_bounded_example =
    calibrations_bounded plain_library still (0 ∷ 0x3FF0000000000000 ∷ [])
      (0x3F1A36E2EB1C432D ∷ 0x4024000000000000 ∷ []) (xrd_point ∷ [])
