-- ===== src/Simulator/RoundTrip.antt =====
-- The payloads of the simulator, read by the server's parser.
use ai_solo_coder_task_a.Common.{LaserMicroscopeData}
use ai_solo_coder_task_a.Json.{JsonLibrary}
use ai_solo_coder_task_a.Outcome.{returned}
use ai_solo_coder_task_a.Prelude.{
  All, Bool, List, [], ap, arith, false, if◌then◌else◌, length, length-drop, map, not, refl, some,
  take-length, true, ℕ, ◌++◌, ◌<◌, ◌==◌, ◌^◌, ◌∷◌, ◌≡◌,
}
use ai_solo_coder_task_a.Profinet.Cursor.Encodes.{
  Encodes, Encodes-bind, Encodes-byte, Encodes-double, Encodes-many, Encodes-pure, Encodes-u32,
  Encodes-u64, Ends, Ends-bind, Ends-map, concat,
}
use ai_solo_coder_task_a.Profinet.Payload.{
  LaserHead, int_rounds, parse_laser_data, read_detected, read_detection, read_json,
  read_laser_data, read_laser_head, without_offset,
}
use ai_solo_coder_task_a.Simulator.Cracks.{
  CrackFits, IsU32, IsU64, append_cracks_lem, crack_bytes, crack_of, read_crack-Encodes,
}
use ai_solo_coder_task_a.Simulator.Encode.{appends, u32_bytes, u64_bytes}
use ai_solo_coder_task_a.Simulator.Packet.{
  DrawnCrack, build_laser_payload, d_resolution, d_twenty, d_zero,
}

int_rounds_lem : (n : ℕ) → n < 2 ^ 31 → int_rounds n ≡ n
int_rounds_lem n h = ground arith

-- The first 53 bytes of a laser payload.
abbrev pub laser_start : ℕ → ℕ → ℕ → Bool → List ℕ
laser_start sensor_id porcelain_id timestamp crack_detected =
    u32_bytes sensor_id
    ++ u32_bytes porcelain_id
    ++ u64_bytes timestamp
    ++ u64_bytes d_zero
    ++ u64_bytes d_zero
    ++ u64_bytes d_twenty
    ++ u64_bytes d_twenty
    ++ u64_bytes d_resolution
    ++ ((if crack_detected then 1 else 0) ∷ [])

module _ (json : JsonLibrary) (json_str : List ℕ) (j : json.Json) where
  -- The JSON text is not empty, and the library reads `j` from it.
  read_json-Ends :
      0 < length json_str
      → IsU32 (length json_str)
      → json.parse json_str ≡ some j
      → Ends (read_json json) (u32_bytes (length json_str) ++ json_str) j
  unfolding read_json
  read_json-Ends h0 h1 e = Ends-bind _ (Encodes-u32 (length json_str) h1) (record {
    at = λ payload offset at.
        (offset, ground (arith, length-drop offset payload, ap length at, take-length json_str));
  })

  laser_bytes : ℕ → ℕ → ℕ → Bool → List DrawnCrack → List ℕ
  laser_bytes sensor_id porcelain_id timestamp crack_detected drawn =
      u32_bytes sensor_id
      ++ u32_bytes porcelain_id
      ++ u64_bytes timestamp
      ++ u64_bytes d_zero
      ++ u64_bytes d_zero
      ++ u64_bytes d_twenty
      ++ u64_bytes d_twenty
      ++ u64_bytes d_resolution
      ++ ((if crack_detected then 1 else 0) ∷ [])
      ++ u32_bytes (length drawn)
      ++ (concat crack_bytes drawn ++ (u32_bytes (length json_str) ++ json_str))

  build_laser_payload_lem :
      (sensor_id porcelain_id timestamp : ℕ) (crack_detected : Bool) (cracks : List DrawnCrack)
      → build_laser_payload sensor_id porcelain_id timestamp crack_detected cracks json_str
        ≡ laser_bytes sensor_id porcelain_id timestamp crack_detected
            (if crack_detected then cracks else [])
  unfolding build_laser_payload laser_bytes
  build_laser_payload_lem sensor_id porcelain_id timestamp crack_detected cracks =
      simp (append_cracks_lem, appends)

  -- A laser payload begins with its head and flag.
  pub build_laser_payload_starts :
      (sensor_id porcelain_id timestamp : ℕ) (crack_detected : Bool) (cracks : List DrawnCrack)
      → (rest : List ℕ) × (build_laser_payload sensor_id porcelain_id timestamp crack_detected
            cracks json_str
          ≡ laser_start sensor_id porcelain_id timestamp crack_detected ++ rest)
  unfolding laser_bytes
  build_laser_payload_starts sensor_id porcelain_id timestamp crack_detected cracks =
      (_, build_laser_payload_lem sensor_id porcelain_id timestamp crack_detected cracks)

  -- The data that the server is to see.
  abbrev pub laser_data_of : ℕ → ℕ → ℕ → Bool → List DrawnCrack → LaserMicroscopeData json.Json
  laser_data_of sensor_id porcelain_id timestamp crack_detected drawn = record {
    sensor_id = sensor_id;
    porcelain_id = porcelain_id;
    measurement_time = timestamp;
    scan_area = (d_zero, d_zero, d_twenty, d_twenty);
    resolution = d_resolution;
    crack_detected = crack_detected;
    crack_count = length drawn;
    cracks = map (crack_of porcelain_id) drawn;
    processed_data = j;
  }

  module _ (sensor_id porcelain_id timestamp : ℕ) (hs : IsU32 sensor_id) (hp : IsU32 porcelain_id)
      (ht : IsU64 timestamp) where
    laser_head_of : LaserHead
    laser_head_of = record {
      sensor_id = sensor_id;
      porcelain_id = porcelain_id;
      timestamp = timestamp;
      scan_area = (d_zero, d_zero, d_twenty, d_twenty);
      resolution = d_resolution;
    }

    read_laser_head-Encodes :
        Encodes read_laser_head
          (u32_bytes sensor_id
            ++ u32_bytes porcelain_id
            ++ u64_bytes timestamp
            ++ u64_bytes d_zero
            ++ u64_bytes d_zero
            ++ u64_bytes d_twenty
            ++ u64_bytes d_twenty
            ++ u64_bytes d_resolution)
          laser_head_of
    unfolding read_laser_head laser_head_of
    read_laser_head-Encodes = Encodes-bind _ (Encodes-u32 sensor_id hs) (
        Encodes-bind _ (Encodes-u32 porcelain_id hp) (
          Encodes-bind _ (Encodes-u64 timestamp ht) (
            Encodes-bind _ (Encodes-double d_zero (omega arith)) (
              Encodes-bind _ (Encodes-double d_zero (omega arith)) (
                Encodes-bind _ (Encodes-double d_twenty (omega arith)) (
                  Encodes-bind _ (Encodes-double d_twenty (omega arith)) (
                    Encodes-bind _ (Encodes-double d_resolution (omega arith))
                      (Encodes-pure laser_head_of))))))))

    module _ (h0 : 0 < length json_str) (h1 : IsU32 (length json_str))
        (e : json.parse json_str ≡ some j) where
      read_detected-Ends :
          (flag : ℕ) (drawn : List DrawnCrack)
          → length drawn < 2 ^ 31
          → All CrackFits drawn
          → Ends
              (read_detected json laser_head_of flag)
              (u32_bytes (length drawn)
                ++ (concat crack_bytes drawn ++ (u32_bytes (length json_str) ++ json_str)))
              (laser_data_of sensor_id porcelain_id timestamp (not (flag == 0)) drawn)
      unfolding read_detected laser_head_of
      read_detected-Ends flag drawn hn hc = Ends-bind _ (Encodes-u32 (length drawn) (omega arith)) (
          rw (int_rounds_lem (length drawn) hn) (
            Ends-bind _
              (Encodes-many crack_bytes (crack_of porcelain_id) CrackFits
                (read_crack-Encodes porcelain_id) drawn hc)
              (Ends-map _ (read_json-Ends h0 h1 e))))

      read_laser_data-Ends :
          (crack_detected : Bool) (drawn : List DrawnCrack)
          → length drawn < 2 ^ 31
          → All CrackFits drawn
          → Ends
              (read_laser_data json)
              (laser_bytes sensor_id porcelain_id timestamp crack_detected drawn)
              (laser_data_of sensor_id porcelain_id timestamp crack_detected drawn)
      unfolding read_laser_data read_detection laser_bytes
      read_laser_data-Ends true drawn hn hc =
          Ends-bind _ read_laser_head-Encodes
            (Ends-bind _ (Encodes-byte 1) (read_detected-Ends 1 drawn hn hc))
      read_laser_data-Ends false drawn hn hc =
          Ends-bind _ read_laser_head-Encodes
            (Ends-bind _ (Encodes-byte 0) (read_detected-Ends 0 drawn hn hc))

sent_fits :
    (d : Bool) (cracks : List DrawnCrack)
    → length cracks < 2 ^ 31
    → All CrackFits cracks
    → (length (if d then cracks else []) < 2 ^ 31) × All CrackFits (if d then cracks else [])
sent_fits true cracks hn hc = (hn, hc)
sent_fits false cracks hn hc = (omega arith, tt)

-- The server's parser reads back what the simulator writes: from the payload built of any identity, time
-- and cracks that fit their fields, with a JSON text that is not empty and that the library accepts as
-- `j`, `parse_laser_data` returns exactly that identity and time, the simulator's scan area and
-- resolution, the flag, every crack with all its points, and `j`. Without a detected crack no crack is
-- sent.
pub parse_laser_data-build_laser_payload :
    (json : JsonLibrary) (json_str : List ℕ) (j : json.Json) (sensor_id porcelain_id timestamp : ℕ)
    (crack_detected : Bool) (cracks : List DrawnCrack)
    → IsU32 sensor_id
    → IsU32 porcelain_id
    → IsU64 timestamp
    → 0 < length json_str
    → IsU32 (length json_str)
    → json.parse json_str ≡ some j
    → length cracks < 2 ^ 31
    → All CrackFits cracks
    → parse_laser_data json
        (build_laser_payload sensor_id porcelain_id timestamp crack_detected cracks json_str)
      ≡ returned (
          laser_data_of json json_str j sensor_id porcelain_id timestamp crack_detected
            (if crack_detected then cracks else []))
unfolding parse_laser_data
parse_laser_data-build_laser_payload json json_str j s p t d cracks hs hp ht h0 h1 e hn hc =
    let sent : List DrawnCrack = if d then cracks else [] in
    let fits = sent_fits d cracks hn hc in
    let (end, r) =
      (read_laser_data-Ends json json_str j s p t hs hp ht h0 h1 e d sent fits.0 fits.1).at _ 0
        refl in
    rw (build_laser_payload_lem json json_str j s p t d cracks) (ap without_offset r)
