-- ===== src/Alerts/Module.antt =====
-- `AlertWsModule` of backend/include/modules/alert_ws_module.h: what its thread does with a message. To
-- wait for a connection that no thread gives back is `none`. `handle_prediction` calls
-- `check_prediction`, which does not compile, and is left out.
pub mod Lost
pub mod Kept
pub mod Pool
pub mod Stored
use ai_solo_coder_task_a.Alerts.Checks.{Thresholds, check_laser_data, check_vibration_data}
use ai_solo_coder_task_a.Common.{
  Alert, AlertType, CrackInfo, LaserMicroscopeData, ProfinetPacket, VibrationData,
}
use ai_solo_coder_task_a.Database.{Database, Postgres}
use ai_solo_coder_task_a.Database.Batches.{insert_crack_points}
use ai_solo_coder_task_a.Database.Inserts.{
  insert_crack, insert_laser_data, insert_vibration_data, log_profinet_packet,
}
use ai_solo_coder_task_a.Database.Statements.{text}
use ai_solo_coder_task_a.Dem.Module.{DemSimulationMessage}
use ai_solo_coder_task_a.Json.{JsonValues}
use ai_solo_coder_task_a.Outcome.{Outcome, returned, ◌>>=◌}
use ai_solo_coder_task_a.Pipeline.Router.{ParsedLaserMessage, ParsedVibrationMessage}
use ai_solo_coder_task_a.Prelude.{
  List, Option, String, [], if◌then◌else◌, ltb, none, some, ℕ, ◌%◌, ◌&&◌, ◌++◌, ◌+◌, ◌^◌, ◌∷◌,
}
use ai_solo_coder_task_a.Profinet.Packet.{laser_data, vibration_data}

module _ (pg : Postgres) where
  open pg use {Json}

  -- The database, the alerts queued for the worker, the documents given to `broadcast_json`, and the
  -- counter, a `uint64_t`.
  pub record AlertWs : Type 0 where
    pub database : Database pg
    pub alert_queue : List Alert
    pub broadcasts : List Json
    pub processed : ℕ

  pub data Message : Type 0 where
    laser : ParsedLaserMessage Json → Message
    vibration : ParsedVibrationMessage Json → Message
    dem : DemSimulationMessage Json → Message

-- What the module takes from elsewhere: the thresholds that `init` was given, the clock of an alert, the
-- code of a crack with the time of day, and the text of a payload as in `log_profinet_packet`.
pub record Surroundings : Type 0 where
  pub thresholds : Thresholds
  pub clock : AlertType → ℕ
  pub crack_code : ℕ → String
  pub payload_text : List ℕ → Option String

module _ (pg : Postgres) (values : JsonValues (pg.Json)) (env : Surroundings) where
  open pg use {Json}

  -- `broadcast_json`, and the counter.
  broadcast : String → List (String × Json) → AlertWs pg → AlertWs pg
  broadcast type fields s =
      let document =
        values.object (("type", values.text type) ∷ ("data", values.object fields) ∷ []) in
      record s {
        broadcasts = s.broadcasts ++ document ∷ [];
        processed = (s.processed + 1) % 2 ^ 64;
      }

  -- The end of a handler, after the check.
  unfoldable pub finished :
      String
      → List (String × Json)
      → Option (Database pg × List Alert)
      → AlertWs pg
      → Option (AlertWs pg)
  unfolding broadcast
  finished type fields none s = none
  finished type fields (some (database, alert_queue)) s =
      some (broadcast type fields (record s { database = database; alert_queue = alert_queue }))

  -- `log_profinet_packet`, and the rest of a handler unless it throws: the exception is caught, and the
  -- message is done with.
  unfoldable pub logged :
      ProfinetPacket
      → (Database pg → Outcome (Option (AlertWs pg)))
      → AlertWs pg
      → Outcome (Option (AlertWs pg))
  logged packet rest s =
      elim (log_profinet_packet pg env.payload_text packet.source_ip packet.destination_ip
        packet.frame_id packet.payload s.database) [
          | none ↦ returned none
          | some (done, database) ↦ elim (env.payload_text packet.payload) [
            | none ↦ returned (some (record s { database = database }))
            | some shown ↦ rest database
          ]
        ]

  -- The loop over the cracks: the row, and the points where the id is positive.
  unfoldable pub store_cracks : ℕ → ℕ → List CrackInfo → Database pg → Option (Database pg)
  store_cracks porcelain_id time [] db = some db
  store_cracks porcelain_id time (crack ∷ cracks) db =
      let stamped = record crack { crack_code = env.crack_code porcelain_id; detected_at = time } in
      elim (insert_crack pg stamped porcelain_id db) [
        | none ↦ none
        | some (id, db') ↦
            elim (if ltb 0 id && ltb id (2 ^ 63)
              then insert_crack_points pg id crack.points db'
              else some (0, db')) [
                | none ↦ none
                | some (stored, db'') ↦ store_cracks porcelain_id time cracks db''
              ]
      ]

  unfoldable pub laser_fields : LaserMicroscopeData Json → List (String × Json)
  laser_fields d =
      ("sensor_id", values.integer d.sensor_id)
      ∷ ("porcelain_id", values.integer d.porcelain_id)
      ∷ ("crack_detected", values.boolean d.crack_detected)
      ∷ ("crack_count", values.integer d.crack_count)
      ∷ []

  -- `handle_laser` after `log_profinet_packet`: the row, the cracks, and the check with the end.
  unfoldable pub check_laser :
      LaserMicroscopeData Json → AlertWs pg → Option (Database pg) → Outcome (Option (AlertWs pg))
  unfolding finished laser_fields
  check_laser d s none = returned none
  check_laser d s (some db) =
      check_laser_data pg env.clock env.thresholds d db s.alert_queue >>= λ checked.
      returned (finished "laser_data" (laser_fields d) checked s)

  unfoldable pub store_laser :
      LaserMicroscopeData Json
      → AlertWs pg
      → Option (ℕ × Database pg)
      → Outcome (Option (AlertWs pg))
  unfolding check_laser store_cracks
  store_laser d s none = returned none
  store_laser d s (some (data_id, db)) = check_laser d s (
      if d.crack_detected
      then store_cracks d.porcelain_id d.measurement_time d.cracks db
      else some db)

  unfoldable pub handle_laser : ParsedLaserMessage Json → AlertWs pg → Outcome (Option (AlertWs pg))
  unfolding logged store_laser
  handle_laser msg s =
      logged msg.packet
        (λ db. store_laser msg.laser_data s (insert_laser_data pg msg.laser_data db)) s

  unfoldable pub vibration_fields : VibrationData Json → List (String × Json)
  vibration_fields d =
      ("sensor_id", values.integer d.sensor_id)
      ∷ ("porcelain_id", values.integer d.porcelain_id)
      ∷ ("rms_value", values.double d.rms_value)
      ∷ ("peak_value", values.double d.peak_value)
      ∷ ("temperature", values.double d.temperature)
      ∷ ("humidity", values.double d.humidity)
      ∷ []

  unfoldable pub check_vibration :
      VibrationData Json → AlertWs pg → Option (ℕ × Database pg) → Outcome (Option (AlertWs pg))
  unfolding finished vibration_fields
  check_vibration d s none = returned none
  check_vibration d s (some (data_id, db)) =
      check_vibration_data pg env.clock d db s.alert_queue >>= λ checked.
      returned (finished "vibration_data" (vibration_fields d) checked s)

  unfoldable pub handle_vibration :
      ParsedVibrationMessage Json → AlertWs pg → Outcome (Option (AlertWs pg))
  unfolding logged check_vibration
  handle_vibration msg s =
      logged msg.packet
        (λ db.
          check_vibration msg.vibration_data s (insert_vibration_data pg msg.vibration_data db))
        s

  unfoldable pub handle_dem : DemSimulationMessage Json → AlertWs pg → AlertWs pg
  unfolding broadcast
  handle_dem msg s =
      broadcast "dem_simulation"
        (("crack_id", values.integer msg.result.crack_id)
          ∷ ("porcelain_id", values.integer msg.porcelain_id)
          ∷ ("filling_rate", values.double msg.result.filling_rate)
          ∷ ("durability_score", values.double msg.result.durability_score)
          ∷ ("particle_count", values.integer msg.result.particle_count)
          ∷ [])
        s

  unfoldable pub handle_message : Message pg → AlertWs pg → Outcome (Option (AlertWs pg))
  unfolding handle_laser handle_vibration handle_dem
  handle_message (laser msg) s = handle_laser msg s
  handle_message (vibration msg) s = handle_vibration msg s
  handle_message (dem msg) s = returned (some (handle_dem msg s))

  -- One message after the other.
  unfoldable pub handle_messages : List (Message pg) → AlertWs pg → Outcome (Option (AlertWs pg))
  unfolding handle_message
  handle_messages [] s = returned (some s)
  handle_messages (msg ∷ messages) s = handle_message msg s >>= λ handled. elim handled [
    | none ↦ returned none
    | some s' ↦ handle_messages messages s'
  ]
