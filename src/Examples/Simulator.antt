-- ===== src/Examples/Simulator.antt =====
-- Runs of the simulator against the parser.
use ai_solo_coder_task_a.Common.{LaserMicroscopeData, ProfinetPacket}
use ai_solo_coder_task_a.Examples.{braces, drawn_crack, json_texts}
use ai_solo_coder_task_a.Outcome.{returned}
use ai_solo_coder_task_a.Prelude.{
  List, [], arith, length, refl, take, true, ℕ, ◌%◌, ◌^◌, ◌∷◌, ◌≡◌, ◌≢◌,
}
use ai_solo_coder_task_a.Profinet.Packet.{laser_data, packet_type_to_string, parse}
use ai_solo_coder_task_a.Profinet.Payload.{parse_laser_data}
use ai_solo_coder_task_a.Simulator.Framing.{parse-build_profinet_packet}
use ai_solo_coder_task_a.Simulator.Loss.{laser_never_parsed}
use ai_solo_coder_task_a.Simulator.Packet.{build_laser_payload, build_profinet_packet}
use ai_solo_coder_task_a.Simulator.RoundTrip.{laser_data_of, parse_laser_data-build_laser_payload}

parse_laser_data-build_laser_payload_example :
    parse_laser_data json_texts (build_laser_payload 7 3 1000 true (drawn_crack ∷ []) braces)
    ≡ returned (laser_data_of json_texts braces braces 7 3 1000 true (drawn_crack ∷ []))
parse_laser_data-build_laser_payload_example =
    parse_laser_data-build_laser_payload json_texts braces braces 7 3 1000 true (drawn_crack ∷ [])
      (omega arith) (omega arith) (omega arith) (omega arith) (omega arith) refl (omega arith)
      (
        (
          omega arith,
          omega arith,
          omega arith,
          omega arith,
          ((omega arith, omega arith, omega arith, omega arith, omega arith), tt),
        ),
        tt,
      )

parse-build_profinet_packet_example :
    parse (build_profinet_packet 0x8001 (1 ∷ 2 ∷ []) 9 1000) "a" "b" 5
    ≡ returned (record {
      source_ip = "a";
      destination_ip = "b";
      packet_type = packet_type_to_string 0x8001;
      frame_id = 0x8001;
      payload = take (length {A = ℕ} (1 ∷ 2 ∷ []) % 2 ^ 16) (0 ∷ 0 ∷ 0 ∷ 0 ∷ 1 ∷ 2 ∷ []);
      received_at = 5;
    })
parse-build_profinet_packet_example =
    parse-build_profinet_packet 0x8001 (1 ∷ 2 ∷ []) 9 1000 "a" "b" 5 (omega arith)

laser_never_parsed_example :
    (packet : ProfinetPacket) × (parse
        (build_profinet_packet laser_data
          (build_laser_payload 7 3 1000 true (drawn_crack ∷ []) braces)
          9
          1000)
        "a"
        "b"
        5
      ≡ returned packet)
    × ((d : LaserMicroscopeData (List ℕ)) → parse_laser_data json_texts packet.payload ≢ returned d)
laser_never_parsed_example =
    laser_never_parsed json_texts braces 7 3 1000 true (drawn_crack ∷ []) 9 1000 "a" "b" 5
