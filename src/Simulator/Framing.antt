-- ===== src/Simulator/Framing.antt =====
-- The packets of the simulator, read by the server's parser.
use ai_solo_coder_task_a.Outcome.{returned}
use ai_solo_coder_task_a.Prelude.{List, String, arith, length, take, ℕ, ◌%◌, ◌<◌, ◌^◌, ◌∷◌, ◌≡◌}
use ai_solo_coder_task_a.Profinet.Cursor.Laws.{le_value-u16_bytes}
use ai_solo_coder_task_a.Profinet.Packet.{packet_type_to_string, parse}
use ai_solo_coder_task_a.Profinet.Packet.Shape.{parse-parse_answer}
use ai_solo_coder_task_a.Simulator.Packet.{build_profinet_packet, build_profinet_packet_lem}

-- The server takes the payload from the twentieth byte on, and the simulator writes it four bytes later:
-- from the packet of any payload and frame id, `parse` returns a payload that begins with four zero
-- bytes and has lost the last four bytes that were sent, with the length, modulo 2^16, that was sent.
pub parse-build_profinet_packet :
    (frame_id : ℕ) (payload : List ℕ) (cycle_counter timestamp : ℕ) (source_ip dest_ip : String)
    (now : ℕ)
    → frame_id < 2 ^ 16
    → parse (build_profinet_packet frame_id payload cycle_counter timestamp) source_ip dest_ip now
      ≡ returned (record {
        source_ip = source_ip;
        destination_ip = dest_ip;
        packet_type = packet_type_to_string frame_id;
        frame_id = frame_id;
        payload = take (length payload % 2 ^ 16) (0 ∷ 0 ∷ 0 ∷ 0 ∷ payload);
        received_at = now;
      })
parse-build_profinet_packet frame_id payload cycle_counter timestamp source_ip dest_ip now h =
    rw
      (
        build_profinet_packet_lem frame_id payload cycle_counter timestamp,
        parse-parse_answer _ source_ip dest_ip now,
      )
      (ground (arith, le_value-u16_bytes frame_id, le_value-u16_bytes (length payload % 2 ^ 16)))
