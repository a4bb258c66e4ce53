-- ===== src/Simulator/Packet.antt =====
-- simulator/main.cpp, `build_profinet_packet`, `build_laser_payload` and `build_vibration_payload`. The
-- random draws, the clock and the text of the JSON document are arguments.
use ai_solo_coder_task_a.Prelude.{
  Bool, List, [], if◌then◌else◌, length, ℕ, ◌%◌, ◌++◌, ◌+◌, ◌^◌, ◌∷◌, ◌≡◌,
}
use ai_solo_coder_task_a.Simulator.Encode.{
  append_double, append_float, append_u16, append_u32, append_u64, appends, u16_bytes, u32_bytes,
  u64_bytes,
}

-- What is drawn for a point of a crack.
pub record DrawnPoint : Type 0 where
  pub x : ℕ
  pub y : ℕ
  pub z : ℕ
  pub depth : ℕ
  pub width : ℕ

pub record DrawnCrack : Type 0 where
  pub max_depth : ℕ
  pub max_width : ℕ
  pub total_length : ℕ
  pub points : List DrawnPoint

-- 0.0, 1.0, 20.0, 0.1e-6 and 0.01
abbrev pub d_zero : ℕ
d_zero = 0

abbrev pub d_one : ℕ
d_one = 0x3FF0000000000000

abbrev pub d_twenty : ℕ
d_twenty = 0x4034000000000000

abbrev pub d_resolution : ℕ
d_resolution = 0x3E7AD7F29ABCAF48

abbrev pub d_curvature : ℕ
d_curvature = 0x3F847AE147AE147B

unfoldable pub append_point : List ℕ → DrawnPoint → List ℕ
append_point buf p =
    let b1 = append_double buf p.x in
    let b2 = append_double b1 p.y in
    let b3 = append_double b2 p.z in
    let b4 = append_double b3 p.depth in
    let b5 = append_double b4 p.width in
    let b6 = append_double b5 d_zero in
    let b7 = append_double b6 d_zero in
    let b8 = append_double b7 d_one in append_double b8 d_curvature

unfoldable pub append_points : List ℕ → List DrawnPoint → List ℕ
append_points buf [] = buf
append_points buf (p ∷ points) = append_points (append_point buf p) points

unfoldable pub append_crack : List ℕ → DrawnCrack → List ℕ
append_crack buf c =
    let b1 = append_double buf c.max_depth in
    let b2 = append_double b1 c.max_width in
    let b3 = append_double b2 c.total_length in
    let b4 = append_u32 b3 (length c.points) in append_points b4 c.points

unfoldable pub append_cracks : List ℕ → List DrawnCrack → List ℕ
append_cracks buf [] = buf
append_cracks buf (c ∷ cracks) = append_cracks (append_crack buf c) cracks

-- `cracks` is empty where no crack is detected.
unfoldable pub build_laser_payload : ℕ → ℕ → ℕ → Bool → List DrawnCrack → List ℕ → List ℕ
build_laser_payload sensor_id porcelain_id timestamp crack_detected cracks json_str =
    let b1 = append_u32 [] sensor_id in
    let b2 = append_u32 b1 porcelain_id in
    let b3 = append_u64 b2 timestamp in
    let b4 = append_double b3 d_zero in
    let b5 = append_double b4 d_zero in
    let b6 = append_double b5 d_twenty in
    let b7 = append_double b6 d_twenty in
    let b8 = append_double b7 d_resolution in
    let b9 = b8 ++ (if crack_detected then 1 else 0) ∷ [] in
    let drawn = if crack_detected then cracks else [] in
    let b10 = append_u32 b9 (length drawn) in
    let b11 = append_cracks b10 drawn in append_u32 b11 (length json_str) ++ json_str

unfoldable pub append_doubles : List ℕ → List ℕ → List ℕ
append_doubles buf [] = buf
append_doubles buf (a ∷ amplitudes) = append_doubles (append_double buf a) amplitudes

-- The values drawn for a vibration record; `amplitudes` are the hundred of its loop.
pub record DrawnVibration : Type 0 where
  pub rms : ℕ
  pub peak : ℕ
  pub dom_freq : ℕ
  pub temp : ℕ
  pub hum : ℕ
  pub amplitudes : List ℕ

unfoldable pub build_vibration_payload : ℕ → ℕ → ℕ → DrawnVibration → List ℕ → List ℕ
build_vibration_payload id porcelain_id timestamp d json_str =
    let b1 = append_u32 [] ((id + 20) % 2 ^ 32) in
    let b2 = append_u32 b1 porcelain_id in
    let b3 = append_u64 b2 timestamp in
    let b4 = append_double b3 d.rms in
    let b5 = append_double b4 d.peak in
    let b6 = append_double b5 d.dom_freq in
    let b7 = append_float b6 d.temp in
    let b8 = append_float b7 d.hum in
    let b9 = append_u32 b8 (length d.amplitudes) in
    let b10 = append_doubles b9 d.amplitudes in append_u32 b10 (length json_str) ++ json_str

unfoldable pub build_profinet_packet : ℕ → List ℕ → ℕ → ℕ → List ℕ
build_profinet_packet frame_id payload cycle_counter timestamp =
    let b1 = append_u16 [] frame_id in
    let b2 = (b1 ++ 0x01 ∷ []) ++ 0x01 ∷ [] in
    let b3 = append_u32 b2 cycle_counter in
    let b4 = append_u64 b3 timestamp in
    let b5 = append_u16 b4 0x0001 in
    let b6 = append_u16 b5 (length payload % 2 ^ 16) in
    let b7 = (((b6 ++ 0x00 ∷ []) ++ 0x00 ∷ []) ++ 0x00 ∷ []) ++ 0x00 ∷ [] in b7 ++ payload

-- The packet, as the bytes one after the other.
pub build_profinet_packet_lem :
    (frame_id : ℕ) (payload : List ℕ) (cycle_counter timestamp : ℕ)
    → build_profinet_packet frame_id payload cycle_counter timestamp
      ≡ u16_bytes frame_id
        ++ (1 ∷ 1 ∷ u32_bytes cycle_counter)
        ++ u64_bytes timestamp
        ++ u16_bytes 1
        ++ u16_bytes (length payload % 2 ^ 16)
        ++ (0 ∷ 0 ∷ 0 ∷ 0 ∷ payload)
unfolding build_profinet_packet
build_profinet_packet_lem frame_id payload cycle_counter timestamp = simp appends
