-- ===== src/Alerts/Checks.antt =====
-- backend/src/alert_manager.cpp, the checks that raise alerts, and `DatabaseManager::insert_alert` of
-- backend/src/database.cpp, which they call. A field of an alert or of a crack that was not set is
-- `none`, and to read it is undefined behaviour. `clock` answers `system_clock::now` for the alert that is made.
pub mod Raised
use Prim.Native.String.{◌++◌ as str_append}
use ai_solo_coder_task_a.Common.{
  Alert, AlertType, CrackInfo, LaserMicroscopeData, VibrationData, crack_depth_exceeded,
  crack_propagation_risk, crack_width_exceeded, pending, vibration_anomaly,
}
use ai_solo_coder_task_a.Database.{Database, Postgres, release}
use ai_solo_coder_task_a.Database.Inserts.{insert_row}
use ai_solo_coder_task_a.Database.Statements.{show_int, text}
use ai_solo_coder_task_a.Double.{double_lt}
use ai_solo_coder_task_a.Outcome.{Outcome, or_fault, returned, ◌>>=◌}
use ai_solo_coder_task_a.Prelude.{
  Bool, List, Option, String, [], false, if◌then◌else◌, ltb, none, some, ℕ, ◌%◌, ◌&&◌, ◌++◌, ◌^◌,
  ◌||◌, ◌∷◌,
}

pub record Thresholds : Type 0 where
  pub depth_threshold : ℕ
  pub width_threshold : ℕ

-- 1.0e-6 and 5.0e-6
abbrev pub vibration_rms_threshold : ℕ
vibration_rms_threshold = 0x3EB0C6F7A0B5ED8D

abbrev pub vibration_peak_threshold : ℕ
vibration_peak_threshold = 0x3ED4F8B588E368F1

abbrev pub alert_type_text : AlertType → String
alert_type_text crack_depth_exceeded = "CRACK_DEPTH_EXCEEDED"
alert_type_text crack_width_exceeded = "CRACK_WIDTH_EXCEEDED"
alert_type_text crack_propagation_risk = "CRACK_PROPAGATION_RISK"
alert_type_text vibration_anomaly = "VIBRATION_ANOMALY"

module _ (pg : Postgres) (clock : AlertType → ℕ) where
  open pg use {Json, show_double}

  -- An alert of a crack, with `what` of the crack against its threshold. The id of the crack is read.
  unfoldable pub crack_alert : AlertType → String → CrackInfo → ℕ → ℕ → Outcome Alert
  crack_alert type what crack actual threshold = or_fault crack.id >>= λ id. returned (record {
    id = none;
    alert_type = type;
    porcelain_id = some crack.porcelain_id;
    crack_id = some (id % 2 ^ 32);
    sensor_id = none;
    threshold_value = threshold;
    actual_value = actual;
    unit = "μm";
    message = text (
        "瓷器ID "
        ∷ show_int crack.porcelain_id
        ∷ what
        ∷ show_double actual
        ∷ "μm 超过阈值 "
        ∷ show_double threshold
        ∷ "μm"
        ∷ []);
    status = pending;
    sms_sent = false;
    websocket_sent = false;
    created_at = clock type;
  })

  -- `if (actual > threshold)`, and `push_back` where it holds.
  unfoldable pub push_exceeded :
      AlertType → String → CrackInfo → ℕ → ℕ → List Alert → Outcome (List Alert)
  unfolding crack_alert double_lt
  push_exceeded type what crack actual threshold alerts =
      let pushed =
        crack_alert type what crack actual threshold >>= λ alert. returned (alerts ++ alert ∷ []) in
      if double_lt threshold actual then pushed else returned alerts

  unfoldable pub check_crack_thresholds : Thresholds → CrackInfo → Outcome (List Alert)
  unfolding push_exceeded
  check_crack_thresholds t crack =
      push_exceeded crack_depth_exceeded " 裂纹深度 " crack crack.max_depth t.depth_threshold []
      >>= λ alerts.
          push_exceeded crack_width_exceeded " 裂纹宽度 " crack crack.max_width t.width_threshold alerts

  -- The statement of `insert_alert`.
  unfoldable pub alert_statement : Alert → Outcome String
  alert_statement alert = do
    porcelain_id ← or_fault alert.porcelain_id
    crack_id ← or_fault alert.crack_id
    sensor_id ← or_fault alert.sensor_id
    returned (
        text (
          "INSERT INTO alerts "
          ∷ "(alert_type, porcelain_id, crack_id, sensor_id, threshold_value, "
          ∷ "actual_value, unit, message, status, sms_sent, websocket_sent) VALUES ("
          ∷ "'"
          ∷ alert_type_text alert.alert_type
          ∷ "'::alert_type, "
          ∷ show_int porcelain_id
          ∷ ", "
          ∷ show_int crack_id
          ∷ ", "
          ∷ show_int sensor_id
          ∷ ", "
          ∷ show_double alert.threshold_value
          ∷ ", "
          ∷ show_double alert.actual_value
          ∷ ", '"
          ∷ alert.unit
          ∷ "', '"
          ∷ alert.message
          ∷ "', 'PENDING'::alert_status, "
          ∷ (if alert.sms_sent then "TRUE" else "FALSE")
          ∷ ", "
          ∷ (if alert.websocket_sent then "TRUE" else "FALSE")
          ∷ ") RETURNING id"
          ∷ []))

  -- `none` inside the outcome is the wait for a connection.
  unfoldable pub insert_alert : Alert → Database pg → Outcome (Option (ℕ × Database pg))
  unfolding alert_statement release insert_row
  insert_alert alert db = elim db.available [
    | [] ↦ returned none
    | conn ∷ available ↦ (do
      query ← alert_statement alert
      returned (
          some (
            release pg conn (record db { available = available })
              (insert_row pg query conn db.server))))
  ]

  -- `id > 0`, and `enqueue_alert` where it holds. The queue is that of the worker.
  unfoldable pub enqueue_saved :
      Alert → Option (ℕ × Database pg) → List Alert → Option (Database pg × List Alert)
  enqueue_saved alert none queue = none
  enqueue_saved alert (some (id, db)) queue = some (
    db,
    if ltb 0 id && ltb id (2 ^ 63) then queue ++ record alert { id = some id } ∷ [] else queue,
  )

  unfoldable pub save_alert :
      Alert → Database pg → List Alert → Outcome (Option (Database pg × List Alert))
  unfolding insert_alert enqueue_saved
  save_alert alert db queue = do
    saved ← insert_alert alert db
    returned (enqueue_saved alert saved queue)

  -- The inner loop of `check_laser_data`.
  unfoldable pub save_all :
      ℕ → List Alert → Database pg → List Alert → Outcome (Option (Database pg × List Alert))
  unfolding save_alert
  save_all sensor_id [] db queue = returned (some (db, queue))
  save_all sensor_id (alert ∷ alerts) db queue =
      save_alert (record alert { sensor_id = some sensor_id }) db queue >>= λ r. elim r [
        | none ↦ returned none
        | some (db', queue') ↦ save_all sensor_id alerts db' queue'
      ]

  unfoldable pub check_cracks :
      Thresholds
      → ℕ
      → List CrackInfo
      → Database pg
      → List Alert
      → Outcome (Option (Database pg × List Alert))
  unfolding save_all check_crack_thresholds
  check_cracks t sensor_id [] db queue = returned (some (db, queue))
  check_cracks t sensor_id (crack ∷ cracks) db queue = check_crack_thresholds t crack >>= λ alerts.
      save_all sensor_id alerts db queue >>= λ r. elim r [
        | none ↦ returned none
        | some (db', queue') ↦ check_cracks t sensor_id cracks db' queue'
      ]

  unfoldable pub check_laser_data :
      Thresholds
      → LaserMicroscopeData Json
      → Database pg
      → List Alert
      → Outcome (Option (Database pg × List Alert))
  unfolding check_cracks
  check_laser_data t d db queue =
      let checked = check_cracks t d.sensor_id d.cracks db queue in
      if d.crack_detected then checked else returned (some (db, queue))

  unfoldable pub vibration_alert : VibrationData Json → Alert
  vibration_alert d = record {
    id = none;
    alert_type = vibration_anomaly;
    porcelain_id = some d.porcelain_id;
    crack_id = none;
    sensor_id = some d.sensor_id;
    threshold_value = vibration_rms_threshold;
    actual_value = d.rms_value;
    unit = "m/s²";
    message = text (
        "瓷器ID "
        ∷ show_int d.porcelain_id
        ∷ " 振动异常 - RMS: "
        ∷ show_double d.rms_value
        ∷ " m/s², 峰值: "
        ∷ show_double d.peak_value
        ∷ " m/s²"
        ∷ []);
    status = pending;
    sms_sent = false;
    websocket_sent = false;
    created_at = clock vibration_anomaly;
  }

  abbrev pub is_anomaly : VibrationData Json → Bool
  is_anomaly d =
      double_lt vibration_rms_threshold d.rms_value
      || double_lt vibration_peak_threshold d.peak_value

  unfoldable pub check_vibration_data :
      VibrationData Json → Database pg → List Alert → Outcome (Option (Database pg × List Alert))
  unfolding save_alert vibration_alert
  check_vibration_data d db queue =
      let saved = save_alert (vibration_alert d) db queue in
      if is_anomaly d then saved else returned (some (db, queue))
