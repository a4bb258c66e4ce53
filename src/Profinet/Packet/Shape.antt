-- ===== src/Profinet/Packet/Shape.antt =====
-- What `parse` answers on every byte sequence.
use ai_solo_coder_task_a.Bytes.{word_at}
use ai_solo_coder_task_a.Common.{ProfinetPacket}
use ai_solo_coder_task_a.Outcome.{
  Outcome, header_too_small, incomplete_payload, out_of_range, returned, thrown,
}
use ai_solo_coder_task_a.Prelude.{
  Bool-cases, List, String, arith, drop, get_elem?_exists, if◌then◌else◌, inl, inr, length, ltb,
  take, ℕ, ◌+◌, ◌≡◌, ◌≤◌,
}
use ai_solo_coder_task_a.Profinet.Packet.{packet_type_to_string, parse}
use ai_solo_coder_task_a.Profinet.Reads.Total.{read_u16_word, read_u32_total, read_u64_total}

-- The answer of `parse`, branch by branch.
abbrev pub parse_answer : List ℕ → String → String → ℕ → Outcome ProfinetPacket
parse_answer bytes source_ip dest_ip now =
    if ltb (length bytes) 16
    then thrown header_too_small
    else if ltb (length bytes) 20
    then thrown out_of_range
    else if ltb (length bytes) (20 + word_at bytes 18)
    then thrown incomplete_payload
    else returned (record {
      source_ip = source_ip;
      destination_ip = dest_ip;
      packet_type = packet_type_to_string (word_at bytes 0);
      frame_id = word_at bytes 0;
      payload = take (word_at bytes 18) (drop 20 bytes);
      received_at = now;
    })

module _ (bytes : List ℕ) (source_ip dest_ip : String) (now : ℕ) where
  parse_long :
      16 ≤ length bytes
      → parse bytes source_ip dest_ip now ≡ parse_answer bytes source_ip dest_ip now
  unfolding parse
  parse_long h =
      let (c, ec) = read_u32_total bytes 4 (omega arith) in
      let (t, et) = read_u64_total bytes 8 (omega arith) in
      let (s, es) = get_elem?_exists bytes 2 (omega arith) in
      let (y, ey) = get_elem?_exists bytes 3 (omega arith) in
      rw (read_u16_word bytes 0, es, ey, ec, et, read_u16_word bytes 16, read_u16_word bytes 18)
        (ground arith)

  -- What `parse` does on every byte sequence: fewer than 16 bytes are refused as too short, 16 to 19 by
  -- the read of the payload's length, and a payload that is not all there as incomplete; everything
  -- else gives the packet, whose payload is the announced number of bytes from the twentieth on. The
  -- cycle counter, the time and the service bytes of the header do not matter.
  pub parse-parse_answer :
      parse bytes source_ip dest_ip now ≡ parse_answer bytes source_ip dest_ip now
  unfolding parse
  parse-parse_answer = elim (Bool-cases (ltb (length bytes) 16)) [
    | inl short ↦ rw short
    | inr long ↦ parse_long (ground arith)
  ]
