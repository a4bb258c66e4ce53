-- ===== src/Profinet/Packet.antt =====
-- backend/src/profinet_parser.cpp, `packet_type_to_string` and `parse`, with the frame ids of
-- backend/include/profinet_parser.h.
pub mod Shape
use Prim.Native.String.{◌++◌ as str_append}
use ai_solo_coder_task_a.Bytes.{byte_at}
use ai_solo_coder_task_a.Common.{ProfinetPacket}
use ai_solo_coder_task_a.Outcome.{
  Outcome, header_too_small, incomplete_payload, returned, throw_if, ◌>>=◌, ◌>>◌,
}
use ai_solo_coder_task_a.Prelude.{
  List, String, drop, if◌then◌else◌, length, ltb, take, ℕ, ◌+◌, ◌==◌,
}
use ai_solo_coder_task_a.Profinet.Reads.{read_u16, read_u32, read_u64}
use ai_solo_coder_task_a.Text.{to_string}

abbrev pub header_size : ℕ
header_size = 16

abbrev pub laser_data : ℕ
laser_data = 0x8001

abbrev pub vibration_data : ℕ
vibration_data = 0x8002

abbrev pub acknowledge : ℕ
acknowledge = 0xFFFF

unfoldable pub packet_type_to_string : ℕ → String
packet_type_to_string frame_id =
    if frame_id == 0x0001
    then "RT_CLASS_1"
    else if frame_id == 0x0002
    then "RT_CLASS_2"
    else if frame_id == 0x0003
    then "RT_CLASS_3"
    else if frame_id == laser_data
    then "LASER_DATA"
    else if frame_id == vibration_data
    then "VIBRATION_DATA"
    else if frame_id == 0x8003
    then "DIAGNOSIS"
    else if frame_id == 0x8004
    then "CONFIGURATION"
    else if frame_id == acknowledge
    then "ACKNOWLEDGE"
    else str_append "UNKNOWN_" (to_string frame_id)

pub record ProfinetHeader : Type 0 where
  pub frame_id : ℕ
  pub service_id : ℕ
  pub service_type : ℕ
  pub cycle_counter : ℕ
  pub timestamp : ℕ
  pub data_status : ℕ
  pub payload_length : ℕ

-- The part of `parse` that fills the header.
unfoldable pub read_header : List ℕ → Outcome ProfinetHeader
unfolding read_u16 read_u32 read_u64
read_header bytes = do
  frame_id ← read_u16 bytes 0
  service_id ← byte_at bytes 2
  service_type ← byte_at bytes 3
  cycle_counter ← read_u32 bytes 4
  timestamp ← read_u64 bytes 8
  data_status ← read_u16 bytes 16
  payload_length ← read_u16 bytes 18
  returned (record {
    frame_id = frame_id;
    service_id = service_id;
    service_type = service_type;
    cycle_counter = cycle_counter;
    timestamp = timestamp;
    data_status = data_status;
    payload_length = payload_length;
  })

-- `now` is the system clock's answer.
unfoldable pub parse : List ℕ → String → String → ℕ → Outcome ProfinetPacket
unfolding read_header
parse bytes source_ip dest_ip now = do
  throw_if (ltb (length bytes) header_size) header_too_small
  header ← read_header bytes
  let payload_offset = header_size + 4
  throw_if (ltb (length bytes) (payload_offset + header.payload_length)) incomplete_payload
  returned (record {
    source_ip = source_ip;
    destination_ip = dest_ip;
    packet_type = packet_type_to_string header.frame_id;
    frame_id = header.frame_id;
    payload = take header.payload_length (drop payload_offset bytes);
    received_at = now;
  })
