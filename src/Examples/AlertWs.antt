-- ===== src/Examples/AlertWs.antt =====
-- Runs of the alert and WebSocket module.
use ai_solo_coder_task_a.Alerts.Checks.{check_laser_data, check_vibration_data}
use ai_solo_coder_task_a.Alerts.Module.{
  AlertWs, Message, Surroundings, handle_messages, laser, vibration,
}
use ai_solo_coder_task_a.Alerts.Module.Lost.{handle_messages_lose, pool_without}
use ai_solo_coder_task_a.Alerts.Module.Pool.{handle_messages-pool, lost}
use ai_solo_coder_task_a.Common.{ProfinetPacket}
use ai_solo_coder_task_a.Database.{acquire, release, returned_id}
use ai_solo_coder_task_a.Database.Inserts.{
  insert_crack, insert_laser_data, insert_row, insert_vibration_data, log_profinet_packet,
}
use ai_solo_coder_task_a.Double.{double_lt}
use ai_solo_coder_task_a.Examples.Checks.{default_thresholds, noon}
use ai_solo_coder_task_a.Examples.Database.{
  laser_record, third_fails, two_connections, vibration_record,
}
use ai_solo_coder_task_a.Json.{JsonValues}
use ai_solo_coder_task_a.Outcome.{faulted, returned}
use ai_solo_coder_task_a.Prelude.{List, Option, String, [], length, none, refl, some, ℕ, ◌∷◌, ◌≡◌}

abbrev no_text : List ℕ → Option String
no_text payload = none

abbrev text_of : List ℕ → Option String
text_of payload = some "{}"

abbrev pub silent_values : JsonValues (List ℕ)
silent_values = record {
  null = [];
  double = λ d. [];
  integer = λ n. n ∷ [];
  boolean = λ b. [];
  text = λ s. [];
  array = λ values. [];
  object = λ fields. length fields ∷ [];
}

abbrev surroundings_of : (List ℕ → Option String) → Surroundings
surroundings_of payload_text = record {
  thresholds = default_thresholds;
  clock = noon;
  crack_code = λ porcelain_id. "CRK-3-43200";
  payload_text = payload_text;
}

abbrev packet_of : List ℕ → ProfinetPacket
packet_of payload = record {
  source_ip = "192.168.0.7";
  destination_ip = "192.168.0.1";
  packet_type = "laser";
  frame_id = 0x8001;
  payload = payload;
  received_at = 43200;
}

abbrev laser_msg : Message third_fails
laser_msg = laser (record { packet = packet_of (255 ∷ []); laser_data = laser_record })

abbrev vibration_msg : Message third_fails
vibration_msg =
    vibration (record { packet = packet_of (254 ∷ []); vibration_data = vibration_record })

abbrev ready : AlertWs third_fails
ready = record { database = two_connections; alert_queue = []; broadcasts = []; processed = 0 }

handle_messages_lose_example :
    handle_messages third_fails silent_values
      (surroundings_of no_text)
      (laser_msg ∷ vibration_msg ∷ laser_msg ∷ [])
      ready
    ≡ returned none
handle_messages_lose_example =
    handle_messages_lose third_fails silent_values (surroundings_of no_text)
      (laser_msg ∷ vibration_msg ∷ laser_msg ∷ []) ready (refl, (refl, (refl, tt)))

-- With a text, the crack above its threshold is undefined behaviour.
handle_messages_runs :
    handle_messages third_fails silent_values (surroundings_of text_of) (laser_msg ∷ []) ready
    ≡ faulted
unfolding handle_messages log_profinet_packet acquire release insert_laser_data insert_crack
    insert_row returned_id check_laser_data
handle_messages_runs = refl

abbrev calm_msg : Message third_fails
calm_msg = vibration (record {
  packet = packet_of [];
  vibration_data = record vibration_record { rms_value = 0; peak_value = 0 };
})

handle_messages_counts :
    handle_messages third_fails silent_values
      (surroundings_of text_of)
      (calm_msg ∷ calm_msg ∷ [])
      ready
    ≡ returned (
        some (record {
          database = record { available = 1 ∷ 2 ∷ []; server = 4 };
          alert_queue = [];
          broadcasts = (2 ∷ []) ∷ (2 ∷ []) ∷ [];
          processed = 2;
        }))
unfolding handle_messages log_profinet_packet acquire release insert_vibration_data insert_row
    returned_id check_vibration_data double_lt
handle_messages_counts = refl

handle_messages-pool_example :
    pool_without third_fails silent_values
      (surroundings_of no_text)
      (lost third_fails silent_values (surroundings_of no_text) (vibration_msg ∷ []))
      (1 ∷ 2 ∷ [])
    ≡ some (2 ∷ [])
handle_messages-pool_example =
    handle_messages-pool third_fails silent_values (surroundings_of no_text) (vibration_msg ∷ [])
      ready (record ready { database = record two_connections { available = 2 ∷ [] } })
      (handle_messages_lose third_fails silent_values (surroundings_of no_text) (vibration_msg ∷ [])
        ready (refl, tt))
