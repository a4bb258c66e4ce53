-- ===== src/Examples/Profinet.antt =====
-- Runs of the packet parser.
use ai_solo_coder_task_a.Examples.{json_texts}
use ai_solo_coder_task_a.Outcome.{faulted, returned}
use ai_solo_coder_task_a.Prelude.{[], length, replicate, ℕ, ◌++◌, ◌↔◌, ◌∷◌, ◌≡◌}
use ai_solo_coder_task_a.Profinet.Acknowledge.{
  acknowledge_fields, build_acknowledge, build_acknowledge_faults,
}
use ai_solo_coder_task_a.Profinet.Packet.{parse}
use ai_solo_coder_task_a.Profinet.Packet.Shape.{parse-parse_answer, parse_answer}
use ai_solo_coder_task_a.Profinet.Payload.{parse_laser_data}
use ai_solo_coder_task_a.Profinet.Payload.Faults.{parse_laser_data_faults}
use ai_solo_coder_task_a.Simulator.Encode.{u32_bytes, u64_bytes}

parse-parse_answer_example :
    parse (replicate 19 0) "a" "b" 5 ≡ parse_answer (replicate 19 0) "a" "b" 5
parse-parse_answer_example = parse-parse_answer (replicate 19 0) "a" "b" 5

parse_laser_data_faults_example :
    (parse_laser_data json_texts (replicate 56 0) ≡ faulted)
    ↔ (length {A = ℕ} (replicate 56 0) ≡ 56)
parse_laser_data_faults_example = parse_laser_data_faults json_texts (replicate 56 0)

build_acknowledge_faults_example :
    (acknowledge_fields 7 1000
      ≡ returned (0xFF ∷ 0xFF ∷ 1 ∷ 1 ∷ u32_bytes 7 ++ u64_bytes 1000 ++ 1 ∷ 0 ∷ 4 ∷ 0 ∷ []))
    × (build_acknowledge 7 1000 ≡ faulted)
build_acknowledge_faults_example = build_acknowledge_faults 7 1000
