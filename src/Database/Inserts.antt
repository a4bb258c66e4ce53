-- ===== src/Database/Inserts.antt =====
-- backend/src/database.cpp: the operations that run one statement. The text of a statement is made before
-- a connection is taken, where the source takes it first; making it has no effect but the exception of
-- `log_profinet_packet`, which is treated there.
use Prim.Native.String.{◌++◌ as str_append}
use ai_solo_coder_task_a.Common.{
  AlertStatus, CrackInfo, CrackPrediction, LaserMicroscopeData, RepairSimulation, VibrationData,
}
use ai_solo_coder_task_a.Database.{
  Database, Postgres, acquire, is_command_ok, minus_one, release, returned_id,
}
use ai_solo_coder_task_a.Database.Statements.{
  crack_values, laser_values, prediction_values, simulation_values, status_update, text,
  vibration_values,
}
use ai_solo_coder_task_a.Prelude.{Bool, List, Option, String, [], false, length, none, some, ℕ, ◌∷◌}
use ai_solo_coder_task_a.Text.{to_string}

module _ (pg : Postgres) where
  open pg use {Server, exec, Json}

  or_minus_one : Option ℕ → ℕ
  or_minus_one none = minus_one
  or_minus_one (some id) = id

  -- The statement, and the id that it returns, or -1.
  unfoldable pub insert_row : String → ℕ → Server → ℕ × Server
  unfolding or_minus_one
  insert_row query conn server =
      let answer = exec conn query server in (or_minus_one (returned_id pg answer.0), answer.1)

  returning : String → String
  returning values = str_append values ") RETURNING id"

  unfoldable pub insert_laser_data :
      LaserMicroscopeData Json → Database pg → Option (ℕ × Database pg)
  unfolding returning acquire release
  insert_laser_data d =
      acquire pg
        (λ conn db. release pg conn db (insert_row (returning (laser_values pg d)) conn db.server))

  unfoldable pub insert_vibration_data : VibrationData Json → Database pg → Option (ℕ × Database pg)
  unfolding returning acquire release
  insert_vibration_data d = acquire pg (λ conn db.
      release pg conn db (insert_row (returning (vibration_values pg d)) conn db.server))

  unfoldable pub insert_crack : CrackInfo → ℕ → Database pg → Option (ℕ × Database pg)
  unfolding returning acquire release
  insert_crack crack porcelain_id = acquire pg (λ conn db.
      release pg conn db
        (insert_row (returning (crack_values pg crack porcelain_id)) conn db.server))

  unfoldable pub insert_prediction : CrackPrediction Json → Database pg → Option (ℕ × Database pg)
  unfolding returning acquire release
  insert_prediction p = acquire pg (λ conn db.
      release pg conn db (insert_row (returning (prediction_values pg p)) conn db.server))

  unfoldable pub insert_simulation : RepairSimulation Json → Database pg → Option (ℕ × Database pg)
  unfolding returning acquire release
  insert_simulation s = acquire pg (λ conn db.
      release pg conn db (insert_row (returning (simulation_values pg s)) conn db.server))

  unfoldable pub run_command : String → ℕ → Server → Bool × Server
  run_command query conn server =
      let answer = exec conn query server in (is_command_ok answer.0, answer.1)

  unfoldable pub update_alert_status : ℕ → AlertStatus → Database pg → Option (Bool × Database pg)
  unfolding run_command acquire release
  update_alert_status alert_id status =
      acquire pg
        (λ conn db. release pg conn db (run_command (status_update alert_id status) conn db.server))

  -- `log_profinet_packet`: `payload_text` is the dump of the JSON object of the raw bytes, `none` the
  -- exception that `dump` throws where these are not UTF-8; it leaves the function with the connection
  -- in hand, which is then in no pool.
  unfoldable pub packet_statement : String → String → ℕ → List ℕ → String → String
  packet_statement source_ip dest_ip frame_id payload payload_text = text (
      "INSERT INTO profinet_packets "
      ∷ "(source_ip, destination_ip, frame_id, payload_length, payload) VALUES ("
      ∷ "'"
      ∷ source_ip
      ∷ "'::inet, '"
      ∷ dest_ip
      ∷ "'::inet, "
      ∷ to_string frame_id
      ∷ ", "
      ∷ to_string (length payload)
      ∷ ", '"
      ∷ payload_text
      ∷ "'::jsonb)"
      ∷ [])

  unfoldable pub log_profinet_packet :
      (List ℕ → Option String)
      → String
      → String
      → ℕ
      → List ℕ
      → Database pg
      → Option (Bool × Database pg)
  unfolding run_command packet_statement acquire release
  log_profinet_packet payload_text source_ip dest_ip frame_id payload db =
      elim (payload_text payload) [
        | some shown ↦
            acquire pg
              (λ conn db'. release pg conn db' (
                run_command (packet_statement source_ip dest_ip frame_id payload shown) conn
                  db'.server))
              db
        | none ↦ acquire pg (λ conn db'. (false, db')) db
      ]
