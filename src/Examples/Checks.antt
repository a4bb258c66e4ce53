-- ===== src/Examples/Checks.antt =====
-- Runs of the checks of the alert manager.
use ai_solo_coder_task_a.Alerts.Checks.{
  Thresholds, check_crack_thresholds, check_laser_data, check_vibration_data,
}
use ai_solo_coder_task_a.Alerts.Checks.Raised.{
  IsNewOf, above, any_exceeds, check_crack_thresholds-IsNewOf, check_laser_data_faults,
  check_vibration_data_faults, exceeds, subject,
}
use ai_solo_coder_task_a.Common.{
  Alert, AlertType, CrackInfo, crack_depth_exceeded, crack_width_exceeded,
}
use ai_solo_coder_task_a.Double.{double_lt}
use ai_solo_coder_task_a.Examples.Database.{
  laser_record, one_crack, third_fails, two_connections, vibration_record,
}
use ai_solo_coder_task_a.Outcome.{faulted, returned}
use ai_solo_coder_task_a.Prelude.{
  All, List, [], if◌then◌else◌, map, refl, some, true, ℕ, ◌&&◌, ◌||◌, ◌∷◌, ◌≡◌,
}

abbrev pub noon : AlertType → ℕ
noon type = 43200

-- 200.0 and 50.0
abbrev pub default_thresholds : Thresholds
default_thresholds = record {
  depth_threshold = 0x4069000000000000;
  width_threshold = 0x4049000000000000;
}

-- The crack of the example with the id 5.
abbrev stored_crack : CrackInfo
stored_crack = record one_crack { id = some 5 }

check_crack_thresholds-IsNewOf_example :
    (alerts : List Alert) × (check_crack_thresholds third_fails noon default_thresholds stored_crack
      ≡ returned alerts)
    × (map subject alerts
        ≡ above (
            (crack_depth_exceeded, stored_crack.max_depth, default_thresholds.depth_threshold)
            ∷ (crack_width_exceeded, stored_crack.max_width, default_thresholds.width_threshold)
            ∷ []))
    × All (IsNewOf stored_crack 5) alerts
check_crack_thresholds-IsNewOf_example =
    check_crack_thresholds-IsNewOf third_fails noon default_thresholds stored_crack 5 refl

check_vibration_data_faults_example :
    check_vibration_data third_fails noon vibration_record two_connections [] ≡ (
      if double_lt 0x3EB0C6F7A0B5ED8D vibration_record.rms_value
        || double_lt 0x3ED4F8B588E368F1 vibration_record.peak_value
      then faulted
      else returned (some (two_connections, [])))
check_vibration_data_faults_example =
    check_vibration_data_faults third_fails noon vibration_record two_connections [] 1 (2 ∷ []) refl

check_laser_data_faults_example :
    check_laser_data third_fails noon default_thresholds laser_record two_connections [] ≡ (
      if laser_record.crack_detected
        && any_exceeds third_fails noon default_thresholds laser_record.cracks
      then faulted
      else returned (some (two_connections, [])))
check_laser_data_faults_example =
    check_laser_data_faults third_fails noon default_thresholds laser_record two_connections [] 1
      (2 ∷ []) refl (refl, tt)

-- The crack of the example is above both thresholds.
exceeds_runs : exceeds third_fails noon default_thresholds one_crack ≡ true
unfolding double_lt
exceeds_runs = refl
