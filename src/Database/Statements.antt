-- ===== src/Database/Statements.antt =====
-- The texts of the statements that write. An `int` or `int64_t` is printed in decimal, with its sign.
use Prim.Native.String.{◌++◌ as str_append}
use ai_solo_coder_task_a.Common.{
  AlertStatus, CrackInfo, CrackPrediction, LaserMicroscopeData, Point3D, RepairSimulation,
  VibrationData, acknowledged, ignored, pending, resolved,
}
use ai_solo_coder_task_a.Database.{Postgres}
use ai_solo_coder_task_a.Prelude.{
  List, Option, String, [], if◌then◌else◌, ltb, none, some, ℕ, ◌-◌, ◌^◌, ◌∷◌,
}
use ai_solo_coder_task_a.Text.{to_string}

abbrev pub text : List String → String
text [] = ""
text (piece ∷ pieces) = str_append piece (text pieces)

abbrev pub show_int : ℕ → String
show_int n = if ltb n (2 ^ 31) then to_string n else str_append "-" (to_string (2 ^ 32 - n))

abbrev pub show_int64 : ℕ → String
show_int64 n = if ltb n (2 ^ 63) then to_string n else str_append "-" (to_string (2 ^ 64 - n))

module _ (pg : Postgres) where
  open pg use {Json, is_empty, dump, show_double, fixed_double, show_time}

  -- `"NULL"`, or the text of a JSON value.
  abbrev pub json_or_null : Json → String
  json_or_null j = if is_empty j then "NULL" else text ("'" ∷ dump j ∷ "'::jsonb" ∷ [])

  abbrev pub commas : List ℕ → String
  commas [] = ""
  commas (n ∷ []) = show_double n
  commas (n ∷ numbers) = text (show_double n ∷ "," ∷ commas numbers ∷ [])

  -- The statement up to its closing bracket.
  unfoldable pub laser_values : LaserMicroscopeData Json → String
  laser_values d = text (
      "INSERT INTO laser_microscope_data "
      ∷ "(sensor_id, porcelain_id, measurement_time, scan_area, resolution, "
      ∷ "crack_detected, crack_count, processed_data) VALUES ("
      ∷ show_int d.sensor_id
      ∷ ", "
      ∷ show_int d.porcelain_id
      ∷ ", '"
      ∷ show_time d.measurement_time
      ∷ "', "
      ∷ "ARRAY["
      ∷ show_double d.scan_area.0
      ∷ ","
      ∷ show_double d.scan_area.1
      ∷ ","
      ∷ show_double d.scan_area.2
      ∷ ","
      ∷ show_double d.scan_area.3
      ∷ "]::numeric[]"
      ∷ ", "
      ∷ show_double d.resolution
      ∷ ", "
      ∷ (if d.crack_detected then "TRUE" else "FALSE")
      ∷ ", "
      ∷ show_int d.crack_count
      ∷ ", "
      ∷ json_or_null d.processed_data
      ∷ [])

  unfoldable pub vibration_values : VibrationData Json → String
  vibration_values d = text (
      "INSERT INTO vibration_data "
      ∷ "(sensor_id, porcelain_id, measurement_time, frequency_spectrum, amplitude, "
      ∷ "rms_value, peak_value, dominant_frequency, temperature, humidity) VALUES ("
      ∷ show_int d.sensor_id
      ∷ ", "
      ∷ show_int d.porcelain_id
      ∷ ", '"
      ∷ show_time d.measurement_time
      ∷ "', "
      ∷ json_or_null d.frequency_spectrum
      ∷ ", "
      ∷ "ARRAY["
      ∷ commas d.amplitude
      ∷ "]::numeric[]"
      ∷ ", "
      ∷ show_double d.rms_value
      ∷ ", "
      ∷ show_double d.peak_value
      ∷ ", "
      ∷ show_double d.dominant_frequency
      ∷ ", "
      ∷ show_double d.temperature
      ∷ ", "
      ∷ show_double d.humidity
      ∷ [])

  unfoldable pub crack_values : CrackInfo → ℕ → String
  crack_values crack porcelain_id = text (
      "INSERT INTO cracks "
      ∷ "(porcelain_id, crack_code, detected_date, max_depth, max_width, total_length) VALUES ("
      ∷ show_int porcelain_id
      ∷ ", '"
      ∷ crack.crack_code
      ∷ "', '"
      ∷ show_time crack.detected_at
      ∷ "', "
      ∷ show_double crack.max_depth
      ∷ ", "
      ∷ show_double crack.max_width
      ∷ ", "
      ∷ show_double crack.total_length
      ∷ [])

  normal_text : Option (ℕ × ℕ × ℕ) → String
  normal_text none = "NULL"
  normal_text (some (nx, ny, nz)) = text (
      "ARRAY[" ∷ show_double nx ∷ "," ∷ show_double ny ∷ "," ∷ show_double nz ∷ "]::numeric[]" ∷ [])

  curvature_text : Option ℕ → String
  curvature_text none = "NULL"
  curvature_text (some c) = fixed_double c

  unfoldable pub point_values : ℕ → Point3D → String
  unfolding normal_text curvature_text
  point_values crack_id point = text (
      "INSERT INTO crack_points "
      ∷ "(crack_id, point_3d, normal_vector, depth, width, curvature) VALUES ("
      ∷ show_int64 crack_id
      ∷ ", "
      ∷ "ARRAY["
      ∷ show_double point.x
      ∷ ","
      ∷ show_double point.y
      ∷ ","
      ∷ show_double point.z
      ∷ "]::numeric[]"
      ∷ ", "
      ∷ normal_text point.normal
      ∷ ", "
      ∷ show_double point.depth
      ∷ ", "
      ∷ show_double point.width
      ∷ ", "
      ∷ curvature_text point.curvature
      ∷ [])

  unfoldable pub prediction_values : CrackPrediction Json → String
  prediction_values p = text (
      "INSERT INTO crack_propagation_predictions "
      ∷ "(crack_id, model_type, parameters, time_horizon_hours, "
      ∷ "predicted_depth, predicted_width, predicted_length, confidence, risk_level) VALUES ("
      ∷ show_int p.crack_id
      ∷ ", '"
      ∷ p.model_type
      ∷ "', '"
      ∷ dump p.parameters
      ∷ "'::jsonb, "
      ∷ show_int p.time_horizon_hours
      ∷ ", "
      ∷ show_double p.predicted_depth
      ∷ ", "
      ∷ show_double p.predicted_width
      ∷ ", "
      ∷ show_double p.predicted_length
      ∷ ", "
      ∷ show_double p.confidence
      ∷ ", '"
      ∷ p.risk_level
      ∷ "'"
      ∷ [])

  unfoldable pub simulation_values : RepairSimulation Json → String
  simulation_values s = text (
      "INSERT INTO repair_simulations "
      ∷ "(crack_id, material_id, method, parameters, particle_count, "
      ∷ "filling_rate, bonding_strength, surface_smoothness, durability_score, simulation_result) VALUES ("
      ∷ show_int s.crack_id
      ∷ ", "
      ∷ show_int s.material_id
      ∷ ", '"
      ∷ s.method
      ∷ "', '"
      ∷ dump s.parameters
      ∷ "'::jsonb, "
      ∷ show_int s.particle_count
      ∷ ", "
      ∷ show_double s.filling_rate
      ∷ ", "
      ∷ show_double s.bonding_strength
      ∷ ", "
      ∷ show_double s.surface_smoothness
      ∷ ", "
      ∷ show_double s.durability_score
      ∷ ", '"
      ∷ dump s.result
      ∷ "'::jsonb"
      ∷ [])

-- `update_alert_status`
abbrev pub status_text : AlertStatus → String
status_text acknowledged = "ACKNOWLEDGED"
status_text resolved = "RESOLVED"
status_text ignored = "IGNORED"
status_text pending = "PENDING"

abbrev pub status_time : AlertStatus → String
status_time acknowledged = ", acknowledged_at = CURRENT_TIMESTAMP "
status_time resolved = ", resolved_at = CURRENT_TIMESTAMP "
status_time _ = ""

unfoldable pub status_update : ℕ → AlertStatus → String
status_update alert_id status = text (
    "UPDATE alerts SET status = '"
    ∷ status_text status
    ∷ "'::alert_status, "
    ∷ "updated_at = CURRENT_TIMESTAMP "
    ∷ status_time status
    ∷ "WHERE id = "
    ∷ show_int64 alert_id
    ∷ [])
