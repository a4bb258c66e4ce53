-- ===== src/Fatigue.antt =====
-- backend/include/crack_propagation.h: the parameters and results of the crack growth by Paris' law.
-- A `double` is its bit pattern. An `int` of hours or steps is the number itself: a negative one, which
-- no caller passes, is not modelled.
pub mod Stress
pub mod Growth
pub mod Predict
pub mod Calibrate
pub mod Module
use ai_solo_coder_task_a.Prelude.{Bool, List, String, ℕ}

pub record XrdResidualStressData : Type 0 where
  pub measurement_position_x : ℕ
  pub measurement_position_y : ℕ
  pub measurement_position_z : ℕ
  pub sigma_parallel : ℕ
  pub sigma_perpendicular : ℕ
  pub psi_angle_deg : ℕ
  pub measurement_error : ℕ
  pub is_valid : Bool

pub record ParisLawParameters : Type 0 where
  pub paris_c : ℕ
  pub paris_m : ℕ
  pub stress_ratio_r : ℕ
  pub initial_crack_length : ℕ
  pub maximum_stress : ℕ
  pub minimum_stress : ℕ
  pub residual_stress_parallel : ℕ
  pub residual_stress_perpendicular : ℕ
  pub residual_stress_calibration_factor : ℕ
  pub fracture_toughness : ℕ
  pub geometric_factor_y : ℕ
  pub cyclic_frequency : ℕ
  pub enable_residual_stress_correction : Bool
  pub xrd_calibration_data : List XrdResidualStressData

pub record ParisLawResult : Type 0 where
  pub time_hours : List ℕ
  pub crack_length : List ℕ
  pub crack_depth : List ℕ
  pub crack_width : List ℕ
  pub stress_intensity_range : List ℕ
  pub crack_growth_rate : List ℕ
  pub predicted_length_720h : ℕ
  pub predicted_depth_720h : ℕ
  pub predicted_width_720h : ℕ
  pub time_to_failure_hours : ℕ
  pub confidence : ℕ
  pub risk_level : String
  pub parameters : ParisLawParameters
