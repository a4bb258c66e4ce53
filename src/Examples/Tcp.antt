-- ===== src/Examples/Tcp.antt =====
-- Runs of the frame loop and of the frame handler.
use ai_solo_coder_task_a.Common.{ProfinetPacket}
use ai_solo_coder_task_a.Dem.Steps.Frame.{frame}
use ai_solo_coder_task_a.Examples.{alert_frame, both_callbacks, json_texts, local_peer}
use ai_solo_coder_task_a.Outcome.{Outcome, returned, ◌>>=◌}
use ai_solo_coder_task_a.Prelude.{
  All, List, [], arith, length, refl, replicate, suc, zero, ℕ, ◌++◌, ◌∷◌, ◌≡◌,
}
use ai_solo_coder_task_a.Profinet.Packet.{packet_type_to_string}
use ai_solo_coder_task_a.Profinet.Packet.Shape.{parse-parse_answer}
use ai_solo_coder_task_a.Tcp.Frames.{try_parse_frames}
use ai_solo_coder_task_a.Tcp.Frames.Bounds.{try_parse_frames-append}
use ai_solo_coder_task_a.Tcp.Frames.Pending.{IsByte}
use ai_solo_coder_task_a.Tcp.Session.Replies.{packet_of}

-- A handler that counts the bytes of a frame.
abbrev frame_lengths : List ℕ → Outcome (List ℕ)
frame_lengths frame = returned (length frame ∷ [])

-- One frame of 16 bytes and four bytes of the next.
abbrev arrived : List ℕ
arrived = replicate 20 0

zeros_IsByte : (n : ℕ) → All IsByte (replicate n 0)
zeros_IsByte zero = tt
zeros_IsByte (suc n) = (omega arith, zeros_IsByte n)

abbrev left : List ℕ
left = replicate 4 0

try_parse_frames-append_example : try_parse_frames frame_lengths (arrived ++ replicate 12 0) ≡ (
    try_parse_frames frame_lengths (left ++ replicate 12 0) >>= λ later.
    returned ((16 ∷ []) ++ later.0, later.1))
unfolding try_parse_frames
try_parse_frames-append_example =
    try_parse_frames-append frame_lengths arrived (replicate 12 0) left (16 ∷ []) (zeros_IsByte 20)
      (zeros_IsByte 12) refl

abbrev alert_packet : ProfinetPacket
alert_packet = record {
  source_ip = "10.0.0.2";
  destination_ip = "10.0.0.1";
  packet_type = packet_type_to_string 0;
  frame_id = 0;
  payload = [];
  received_at = 5;
}

alert_frame_parsed :
    packet_of json_texts both_callbacks local_peer (λ frame. 5) alert_frame ≡ returned alert_packet
alert_frame_parsed = parse-parse_answer alert_frame "10.0.0.2" "10.0.0.1" 5
