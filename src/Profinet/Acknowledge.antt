-- ===== src/Profinet/Acknowledge.antt =====
-- backend/src/profinet_parser.cpp, `build_acknowledge`.
use ai_solo_coder_task_a.Bytes.{byte_of, write_at}
use ai_solo_coder_task_a.Outcome.{Outcome, faulted, returned, ◌>>=◌}
use ai_solo_coder_task_a.Prelude.{List, [], refl, replicate, suc, zero, ℕ, ◌++◌, ◌+◌, ◌∷◌, ◌≡◌}
use ai_solo_coder_task_a.Profinet.Packet.{acknowledge, header_size}
use ai_solo_coder_task_a.Profinet.Reads.{write_u16, write_u32}
use ai_solo_coder_task_a.Simulator.Encode.{u32_bytes, u64_bytes}

-- The loop that writes the eight bytes of the time from index 8 on.
write_time : ℕ → ℕ → List ℕ → ℕ → Outcome (List ℕ)
write_time zero i packet now_ns = returned packet
write_time (suc rounds) i packet now_ns = do
  once ← write_at packet (8 + i) (byte_of now_ns i)
  write_time rounds (i + 1) once now_ns

-- Every write but the last.
pub acknowledge_fields : ℕ → ℕ → Outcome (List ℕ)
unfolding write_u16 write_u32 write_time
acknowledge_fields cycle_counter now_ns = do
  p1 ← write_u16 (replicate (header_size + 4) 0) 0 acknowledge
  p2 ← write_at p1 2 0x01
  p3 ← write_at p2 3 0x01
  p4 ← write_u32 p3 4 cycle_counter
  p5 ← write_time 8 0 p4 now_ns
  p6 ← write_u16 p5 16 0x0001
  write_u16 p6 18 4

unfoldable pub build_acknowledge : ℕ → ℕ → Outcome (List ℕ)
unfolding acknowledge_fields
build_acknowledge cycle_counter now_ns = do
  packet ← acknowledge_fields cycle_counter now_ns
  write_u32 packet 20 0

-- The first twenty bytes are the header that `parse` reads: frame id, service bytes, counter, time,
-- status 1 and a payload length of 4.
acknowledge_fields_lem :
    (cycle_counter now_ns : ℕ)
    → acknowledge_fields cycle_counter now_ns
      ≡ returned
          (0xFF ∷ 0xFF ∷ 1 ∷ 1 ∷ u32_bytes cycle_counter ++ u64_bytes now_ns ++ 1 ∷ 0 ∷ 4 ∷ 0 ∷ [])
unfolding acknowledge_fields
acknowledge_fields_lem cycle_counter now_ns = refl

-- Every call of `build_acknowledge` fills its twenty bytes with a header that announces four bytes of
-- payload, and then writes those four bytes behind the end of the vector: undefined behaviour, whatever
-- the counter and the time.
pub build_acknowledge_faults :
    (cycle_counter now_ns : ℕ)
    → (acknowledge_fields cycle_counter now_ns
        ≡ returned (
            0xFF ∷ 0xFF ∷ 1 ∷ 1 ∷ u32_bytes cycle_counter
            ++ u64_bytes now_ns
            ++ 1 ∷ 0 ∷ 4 ∷ 0 ∷ []))
      × (build_acknowledge cycle_counter now_ns ≡ faulted)
unfolding build_acknowledge
build_acknowledge_faults cycle_counter now_ns = (acknowledge_fields_lem cycle_counter now_ns, refl)
