-- ===== src/Examples/Database.antt =====
-- Runs of the database operations.
-- A server that counts commands, and whose third command fails.
use ai_solo_coder_task_a.Common.{
  CrackInfo, CrackPrediction, LaserMicroscopeData, RepairSimulation, VibrationData, resolved,
}
use ai_solo_coder_task_a.Database.{Database, Postgres, command_ok, failed}
use ai_solo_coder_task_a.Database.Answers.{IsClosed, detections_body-IsClosed}
use ai_solo_coder_task_a.Database.Balance.{Balanced, operations-Balanced}
use ai_solo_coder_task_a.Database.Batches.{
  batch_insert_crack_detections, batch_insert_laser_data, batch_insert_vibration_data,
  detections_body, insert_crack_points,
}
use ai_solo_coder_task_a.Database.Inserts.{
  insert_crack, insert_laser_data, insert_prediction, insert_simulation, insert_vibration_data,
  update_alert_status,
}
use ai_solo_coder_task_a.Database.Queries.{
  Numbers, get_active_alerts, get_crack, get_crack_points, get_cracks_by_porcelain,
}
use ai_solo_coder_task_a.Examples.{braces, drawn_crack, json_texts}
use ai_solo_coder_task_a.Prelude.{List, [], if◌then◌else◌, some, true, ℕ, ◌+◌, ◌==◌, ◌∷◌}
use ai_solo_coder_task_a.Simulator.Cracks.{crack_of}
use ai_solo_coder_task_a.Simulator.RoundTrip.{laser_data_of}

abbrev pub third_fails : Postgres
third_fails = record {
  Server = ℕ;
  exec = λ conn query n.
      (some (record { status = (if n == 2 then failed else command_ok); rows = [] }), n + 1);
  is_connected = λ conn n. true;
  Json = List ℕ;
  is_empty = λ j. true;
  dump = λ j. "null";
  show_double = λ bits. "0";
  fixed_double = λ bits. "0.000000";
  show_time = λ time. "1970-01-01 00:00:00";
  atoll = λ digits. 0;
}

abbrev pub two_connections : Database third_fails
two_connections = record { available = 1 ∷ 2 ∷ []; server = 0 }

abbrev pub laser_record : LaserMicroscopeData (List ℕ)
laser_record = laser_data_of json_texts braces braces 7 3 1000 true (drawn_crack ∷ [])

abbrev pub vibration_record : VibrationData (List ℕ)
vibration_record = record {
  sensor_id = 21;
  porcelain_id = 3;
  measurement_time = 1000;
  frequency_spectrum = [];
  amplitude = 0 ∷ 0 ∷ [];
  rms_value = 0;
  peak_value = 0;
  dominant_frequency = 0;
  temperature = 0;
  humidity = 0;
}

abbrev prediction : CrackPrediction (List ℕ)
prediction = record {
  id = 0;
  crack_id = 1;
  model_type = "ParisLaw+ResidualStress";
  parameters = [];
  time_horizon_hours = 720;
  predicted_depth = 0;
  predicted_width = 0;
  predicted_length = 0;
  confidence = 0;
  risk_level = "LOW";
}

abbrev simulation : RepairSimulation (List ℕ)
simulation = record {
  id = 0;
  crack_id = 1;
  material_id = 1;
  method = "DEM-DiscreteElement";
  parameters = [];
  particle_count = 10;
  filling_rate = 0;
  bonding_strength = 0;
  surface_smoothness = 0;
  durability_score = 0;
  result = [];
}

abbrev pub one_crack : CrackInfo
one_crack = crack_of 3 drawn_crack

abbrev zeros : Numbers
zeros = record { atoi = λ digits. 0; atof = λ digits. 0 }

operations-Balanced_example :
    Balanced third_fails (insert_laser_data third_fails laser_record)
    × Balanced third_fails (insert_vibration_data third_fails vibration_record)
    × Balanced third_fails (insert_crack third_fails one_crack 3)
    × Balanced third_fails (insert_prediction third_fails prediction)
    × Balanced third_fails (insert_simulation third_fails simulation)
    × Balanced third_fails (update_alert_status third_fails 3 resolved)
    × Balanced third_fails (insert_crack_points third_fails 3 one_crack.points)
    × Balanced third_fails (batch_insert_laser_data third_fails (laser_record ∷ []))
    × Balanced third_fails (batch_insert_vibration_data third_fails (vibration_record ∷ []))
    × Balanced third_fails (
        batch_insert_crack_detections third_fails laser_record
          (one_crack ∷ [])
          (one_crack.points ∷ [])
          3)
    × Balanced third_fails (get_cracks_by_porcelain third_fails zeros 3 100)
    × Balanced third_fails (get_crack third_fails zeros 3)
    × Balanced third_fails (get_crack_points third_fails zeros 3)
    × Balanced third_fails (get_active_alerts third_fails zeros)
operations-Balanced_example =
    operations-Balanced third_fails laser_record vibration_record one_crack prediction simulation 3
      resolved one_crack.points (laser_record ∷ []) (vibration_record ∷ []) (one_crack ∷ [])
      (one_crack.points ∷ []) zeros 100

abbrev fresh : Database third_fails
fresh = record { available = []; server = 0 }

detections_body-IsClosed_example :
    let done =
      detections_body third_fails laser_record (one_crack ∷ []) (one_crack.points ∷ []) 3 1 fresh in
    IsClosed third_fails 1 0 (done.0, done.1.server)
detections_body-IsClosed_example =
    detections_body-IsClosed third_fails laser_record (one_crack ∷ []) (one_crack.points ∷ []) 3 1
      fresh
