-- ===== src/Simulator/Loss.antt =====
-- What the server makes of the simulator's laser packets.
use ai_solo_coder_task_a.Common.{LaserMicroscopeData, ProfinetPacket}
use ai_solo_coder_task_a.Json.{JsonLibrary}
use ai_solo_coder_task_a.Outcome.{Outcome, faulted, returned, thrown}
use ai_solo_coder_task_a.Prelude.{
  Bool, List, Option-cases, String, [], ap, arith, dec_le, false, get_elem?, if◌then◌else◌, inl,
  inr, length, length-take, refl, suc, take, true, zero, ℕ, ◌%◌, ◌*◌, ◌++◌, ◌+◌, ◌-◌, ◌^◌, ◌∷◌, ◌≡◌,
  ◌≢◌, ◌≤◌,
}
use ai_solo_coder_task_a.Profinet.Cursor.{next_byte, next_double, next_many, next_u32}
use ai_solo_coder_task_a.Profinet.Cursor.Encodes.{Encodes-u32}
use ai_solo_coder_task_a.Profinet.Cursor.Safe.{
  Takes, Takes-bind, Takes-double, Takes-map, Takes-u32,
}
use ai_solo_coder_task_a.Profinet.Cursor.Spends.{
  >>=-eq-returned, Spends, Spends-bind, Spends-less, Spends-many, Spends-pure, Takes-Spends,
}
use ai_solo_coder_task_a.Profinet.Packet.{laser_data, parse}
use ai_solo_coder_task_a.Profinet.Payload.{
  LaserHead, int_rounds, parse_laser_data, read_crack, read_detected, read_detection,
  read_laser_data, read_laser_head, read_point, without_offset,
}
use ai_solo_coder_task_a.Profinet.Payload.Faults.{read_laser_head-Takes}
use ai_solo_coder_task_a.Simulator.Framing.{parse-build_profinet_packet}
use ai_solo_coder_task_a.Simulator.Packet.{DrawnCrack, build_laser_payload, build_profinet_packet}
use ai_solo_coder_task_a.Simulator.RoundTrip.{build_laser_payload_starts, laser_start}

take-append_ge {ℓ} :
    {A : Type ℓ} (n : ℕ) (xs ys : List A)
    → length xs ≤ n
    → take n (xs ++ ys) ≡ xs ++ take (n - length xs) ys
take-append_ge n [] ys h = let e : n - 0 ≡ n = omega arith in rw e refl
take-append_ge zero (x ∷ xs) ys h = absurd (omega arith)
take-append_ge (suc n) (x ∷ xs) ys h =
    let e : suc n - length (x ∷ xs) ≡ n - length xs = omega arith in
    rw e (ap (◌∷◌ x) (take-append_ge n xs ys (omega arith)))

without_offset-eq-returned :
    {A : Type 0} (r : Outcome (A × ℕ)) (a : A)
    → without_offset r ≡ returned a
    → (end : ℕ) × (r ≡ returned (a, end))
without_offset-eq-returned (returned (b, end)) a e = (end, ground arith)
without_offset-eq-returned (thrown x) a e = cc
without_offset-eq-returned faulted a e = cc

read_point-Takes : Takes 72 read_point
unfolding read_point
read_point-Takes = Takes-bind _ Takes-double λ _. Takes-bind _ Takes-double λ _.
    Takes-bind _ Takes-double λ _. Takes-bind _ Takes-double λ _. Takes-bind _ Takes-double λ _.
      Takes-bind _ Takes-double
        λ _. Takes-bind _ Takes-double λ _. Takes-bind _ Takes-double λ _. Takes-map _ Takes-double

-- A crack takes at least the 28 bytes of its four numbers.
read_crack-Spends : (porcelain_id : ℕ) → Spends 28 (read_crack porcelain_id)
unfolding read_crack
read_crack-Spends porcelain_id = Spends-bind next_double _ 8 20 (Takes-Spends 8 Takes-double) λ _.
    Spends-bind next_double _ 8 12 (Takes-Spends 8 Takes-double) λ _.
      Spends-bind next_double _ 8 4 (Takes-Spends 8 Takes-double) λ _.
        Spends-bind next_u32 _ 4 0 (Takes-Spends 4 Takes-u32) λ point_count.
          Spends-less 0 (point_count * 72 + 0) (omega arith) (
            Spends-bind (next_many point_count read_point) _ (point_count * 72) 0
              (Spends-many 72 read_point (Takes-Spends 72 read_point-Takes) point_count)
              λ points. Spends-pure _)

next_byte_end :
    (payload : List ℕ) (offset b end : ℕ)
    → next_byte payload offset ≡ returned (b, end)
    → end ≡ offset + 1
unfolding next_byte
next_byte_end payload offset b end e = elim (Option-cases (get_elem? payload offset)) [
  | inl n ↦ absurd (cc)
  | inr (v, n) ↦ ground (arith, n)
]

u32_there :
    (payload : List ℕ) (offset v end : ℕ)
    → next_u32 payload offset ≡ returned (v, end)
    → offset ≤ length payload
u32_there payload offset v end e = elim (dec_le (offset + 4) (length payload)) [
  | yes there ↦ omega arith
  | no missing ↦ absurd (cc (Takes-u32.short payload offset (omega arith)))
]

module _ (json : JsonLibrary) where
  -- The cracks that are announced must be there.
  read_detected_rounds :
      (head : LaserHead) (flag : ℕ) (payload : List ℕ) (offset end : ℕ)
      (d : LaserMicroscopeData json.Json)
      → read_detected json head flag payload offset ≡ returned (d, end)
      → (count : ℕ) × (next : ℕ) × (next_u32 payload offset ≡ returned (count, next))
        × (offset + 4 + int_rounds count * 28 ≤ length payload)
  unfolding read_detected
  read_detected_rounds head flag payload offset end d r =
      let (count, next, e0, e1) = >>=-eq-returned next_u32 _ payload offset d end r in
      let (cracks, next', e2, e3) =
        >>=-eq-returned (next_many (int_rounds count) (read_crack head.porcelain_id)) _ payload next
          d end e1 in
      let read =
        (Takes-Spends 4 Takes-u32).at payload offset count next e0
          (u32_there payload offset count next e0) in
      let spent =
        (Spends-many 28 _ (read_crack-Spends head.porcelain_id) (int_rounds count)).at payload next
          cracks next' e2 read.1 in
      (count, next, e0, omega (arith, spent.0, spent.1, read.0))

  parse_laser_data_rounds :
      (payload : List ℕ) (d : LaserMicroscopeData json.Json)
      → parse_laser_data json payload ≡ returned d
      → (count : ℕ) × (next : ℕ) × (next_u32 payload 57 ≡ returned (count, next))
        × (61 + int_rounds count * 28 ≤ length payload)
  unfolding parse_laser_data read_laser_data read_detection
  parse_laser_data_rounds payload d r =
      let (end, e0) = without_offset-eq-returned (read_laser_data json payload 0) d r in
      let (head, next, e1, e2) = >>=-eq-returned read_laser_head _ payload 0 d end e0 in
      let s = (Takes-Spends 56 read_laser_head-Takes).at payload 0 head next e1 (omega arith) in
      let (b, f) = read_laser_head-Takes.enough payload 0 (omega (arith, s.0, s.1)) in
      let at_flag : next ≡ 56 = ground (arith, e1, f) in
      let (flag, next', e3, e4) = >>=-eq-returned next_byte _ payload next d end e2 in
      let at_count : next' ≡ 57 =
        omega (arith, at_flag, next_byte_end payload next flag next' e3) in
      read_detected_rounds head flag payload 57 end d (rw at_count at e4)

-- The count that the server reads: the last three bytes of the resolution, and the flag.
shifted_count : Bool → ℕ
shifted_count crack_detected = if crack_detected then 0x013E7AD7 else 0x3E7AD7

shifted_count_large :
    (crack_detected : Bool) (count n : ℕ)
    → count ≡ shifted_count crack_detected
    → 61 + int_rounds count * 28 ≤ n
    → 65536 ≤ n
unfolding shifted_count
shifted_count_large true count n e h = ground (arith, e, h)
shifted_count_large false count n e h = ground (arith, e, h)

next_u32_shifted :
    (sensor_id porcelain_id timestamp : ℕ) (crack_detected : Bool) (rest : List ℕ)
    → next_u32
        ((0 ∷ 0 ∷ 0 ∷ 0 ∷ laser_start sensor_id porcelain_id timestamp crack_detected) ++ rest)
        57
      ≡ returned (shifted_count crack_detected, 61)
unfolding shifted_count
next_u32_shifted s p t true rest = (Encodes-u32 0x013E7AD7 (omega arith)).at _ 57 rest refl
next_u32_shifted s p t false rest = (Encodes-u32 0x3E7AD7 (omega arith)).at _ 57 rest refl

sent_payload :
    (json : JsonLibrary) (json_str : List ℕ) (sensor_id porcelain_id timestamp : ℕ)
    (crack_detected : Bool) (cracks : List DrawnCrack) (n : ℕ)
    → 61 ≤ n
    → next_u32
        (take n (
          0
          ∷ 0
          ∷ 0
          ∷ 0
          ∷ build_laser_payload sensor_id porcelain_id timestamp crack_detected cracks json_str))
        57
      ≡ returned (shifted_count crack_detected, 61)
sent_payload json json_str s p t detected cracks n h =
    let (rest, starts) = build_laser_payload_starts json json_str json.null s p t detected cracks in
    let head : List ℕ = 0 ∷ 0 ∷ 0 ∷ 0 ∷ laser_start s p t detected in
    rw (starts, take-append_ge n head rest h) (next_u32_shifted s p t detected (take (n - 61) rest))

-- No laser record of the simulator ever reaches the server: of the packet made of any laser payload,
-- `parse` returns a packet of whose payload `parse_laser_data` returns no data. The payload that the
-- server reads is shifted by four bytes, so that the end of the resolution is read as a number of
-- cracks that needs more bytes than a packet has.
pub laser_never_parsed :
    (json : JsonLibrary) (json_str : List ℕ) (sensor_id porcelain_id timestamp : ℕ)
    (crack_detected : Bool) (cracks : List DrawnCrack) (cycle_counter sent_at : ℕ)
    (source_ip dest_ip : String) (now : ℕ)
    → (packet : ProfinetPacket) × (parse
          (build_profinet_packet laser_data
            (build_laser_payload sensor_id porcelain_id timestamp crack_detected cracks json_str)
            cycle_counter
            sent_at)
          source_ip
          dest_ip
          now
        ≡ returned packet)
      × ((d : LaserMicroscopeData json.Json) → parse_laser_data json packet.payload ≢ returned d)
laser_never_parsed json json_str s p t detected cracks counter sent_at src dst now =
    let sent : List ℕ = build_laser_payload s p t detected cracks json_str in
    (
      _,
      parse-build_profinet_packet laser_data sent counter sent_at src dst now (omega arith),
      λ d e.
          let n : ℕ = length sent % 2 ^ 16 in
          let payload : List ℕ = take n (0 ∷ 0 ∷ 0 ∷ 0 ∷ sent) in
          let (count, next, r, bound) = parse_laser_data_rounds json payload d e in
          let size = length-take n (0 ∷ 0 ∷ 0 ∷ 0 ∷ sent) in
          elim (dec_le 61 n) [
            | yes long ↦
                let same : count ≡ shifted_count detected =
                  ground (arith, r, sent_payload json json_str s p t detected cracks n long) in
                let large =
                  shifted_count_large detected count n same (omega (arith, bound, size)) in
                omega arith
            | no short ↦ omega (arith, bound, size)
          ],
    )
