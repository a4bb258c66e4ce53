-- ===== src/Common.antt =====
-- backend/include/common.h: the data that the modules pass on. An `int` or `uint32_t` is its 32-bit
-- pattern, an `int64_t` or a time in nanoseconds its 64-bit pattern, a `double` its IEEE-754 pattern.
-- A field that the program leaves without a value is `none`. `Json` stands for `nlohmann::json`.
use ai_solo_coder_task_a.Prelude.{Bool, List, Option, String, ℕ}

pub data AlertType : Type 0 where
  crack_depth_exceeded crack_width_exceeded crack_propagation_risk vibration_anomaly : AlertType

pub data AlertStatus : Type 0 where
  pending acknowledged resolved ignored : AlertStatus

pub data RepairMaterialType : Type 0 where
  zirconia silica composite : RepairMaterialType

pub record Point3D : Type 0 where
  pub x : ℕ
  pub y : ℕ
  pub z : ℕ
  pub depth : ℕ
  pub width : ℕ
  pub normal : Option (ℕ × ℕ × ℕ)
  pub curvature : Option ℕ

pub record CrackInfo : Type 0 where
  pub id : Option ℕ
  pub porcelain_id : ℕ
  pub crack_code : String
  pub max_depth : ℕ
  pub max_width : ℕ
  pub total_length : ℕ
  pub status : String
  pub points : List Point3D
  pub detected_at : ℕ

pub record LaserMicroscopeData (Json : Type 0) : Type 0 where
  pub sensor_id : ℕ
  pub porcelain_id : ℕ
  pub measurement_time : ℕ
  pub scan_area : ℕ × ℕ × ℕ × ℕ
  pub resolution : ℕ
  pub crack_detected : Bool
  pub crack_count : ℕ
  pub cracks : List CrackInfo
  pub processed_data : Json

pub record VibrationData (Json : Type 0) : Type 0 where
  pub sensor_id : ℕ
  pub porcelain_id : ℕ
  pub measurement_time : ℕ
  pub frequency_spectrum : Json
  pub amplitude : List ℕ
  pub rms_value : ℕ
  pub peak_value : ℕ
  pub dominant_frequency : ℕ
  pub temperature : ℕ
  pub humidity : ℕ

pub record ProfinetPacket : Type 0 where
  pub source_ip : String
  pub destination_ip : String
  pub packet_type : String
  pub frame_id : ℕ
  pub payload : List ℕ
  pub received_at : ℕ

pub record Alert : Type 0 where
  pub id : Option ℕ
  pub alert_type : AlertType
  pub porcelain_id : Option ℕ
  pub crack_id : Option ℕ
  pub sensor_id : Option ℕ
  pub threshold_value : ℕ
  pub actual_value : ℕ
  pub unit : String
  pub message : String
  pub status : AlertStatus
  pub sms_sent : Bool
  pub websocket_sent : Bool
  pub created_at : ℕ

pub record CrackPrediction (Json : Type 0) : Type 0 where
  pub id : ℕ
  pub crack_id : ℕ
  pub model_type : String
  pub parameters : Json
  pub time_horizon_hours : ℕ
  pub predicted_depth : ℕ
  pub predicted_width : ℕ
  pub predicted_length : ℕ
  pub confidence : ℕ
  pub risk_level : String

pub record RepairSimulation (Json : Type 0) : Type 0 where
  pub id : ℕ
  pub crack_id : ℕ
  pub material_id : ℕ
  pub method : String
  pub parameters : Json
  pub particle_count : ℕ
  pub filling_rate : ℕ
  pub bonding_strength : ℕ
  pub surface_smoothness : ℕ
  pub durability_score : ℕ
  pub result : Json

pub record RepairMaterial (Json : Type 0) : Type 0 where
  pub id : ℕ
  pub material_type : RepairMaterialType
  pub name : String
  pub manufacturer : String
  pub particle_size_nm : ℕ
  pub purity : ℕ
  pub viscosity : ℕ
  pub refractive_index : ℕ
  pub thermal_expansion_coeff : ℕ
  pub properties : Json
