-- ===== src/Profinet/Payload.antt =====
-- backend/src/profinet_parser.cpp, `parse_laser_data` and `parse_vibration_data`.
--
-- The source writes three reads and two increments of `offset` as five initialisers of an array of
-- three, which no compiler accepts; the three reads are the array here. A crack is copied into the
-- vector before its id is set, which is not counted as undefined behaviour.
pub mod Faults
use ai_solo_coder_task_a.Common.{CrackInfo, LaserMicroscopeData, Point3D, VibrationData}
use ai_solo_coder_task_a.Double.{widen}
use ai_solo_coder_task_a.Json.{JsonLibrary}
use ai_solo_coder_task_a.Outcome.{Outcome, faulted, json_error, returned, thrown}
use ai_solo_coder_task_a.Prelude.{
  List, drop, if◌then◌else◌, leb, length, ltb, none, not, some, take, ℕ, ◌&&◌, ◌+◌, ◌==◌, ◌^◌,
}
use ai_solo_coder_task_a.Profinet.Cursor.{
  Cursor, next_byte, next_double, next_float, next_many, next_u32, next_u64, pure, ◌>>=◌,
}
use ai_solo_coder_task_a.Profinet.Packet.{parse}

unfoldable pub read_point : Cursor Point3D
unfolding next_double ◌>>=◌
read_point = do
  x ← next_double
  y ← next_double
  z ← next_double
  depth ← next_double
  width ← next_double
  nx ← next_double
  ny ← next_double
  nz ← next_double
  curvature ← next_double
  pure (record {
    x = x;
    y = y;
    z = z;
    depth = depth;
    width = width;
    normal = some (nx, ny, nz);
    curvature = some curvature;
  })

-- One round of the loop over the cracks. `id`, `crack_code`, `status` and `detected_at` are not read.
unfoldable pub read_crack : ℕ → Cursor CrackInfo
unfolding next_double next_u32 next_many read_point ◌>>=◌
read_crack porcelain_id = do
  max_depth ← next_double
  max_width ← next_double
  total_length ← next_double
  point_count ← next_u32
  points ← next_many point_count read_point
  pure (record {
    id = none;
    porcelain_id = porcelain_id;
    crack_code = "";
    max_depth = max_depth;
    max_width = max_width;
    total_length = total_length;
    status = "";
    points = points;
    detected_at = 0;
  })

-- The rounds of `for (int i = 0; i < crack_count; ++i)`: none if the `int` is negative.
abbrev pub int_rounds : ℕ → ℕ
int_rounds n = if ltb n (2 ^ 31) then n else 0

-- The fields of a laser payload before `crack_detected`.
pub record LaserHead : Type 0 where
  pub sensor_id : ℕ
  pub porcelain_id : ℕ
  pub timestamp : ℕ
  pub scan_area : ℕ × ℕ × ℕ × ℕ
  pub resolution : ℕ

unfoldable pub read_laser_head : Cursor LaserHead
unfolding next_u32 next_u64 next_double ◌>>=◌
read_laser_head = do
  sensor_id ← next_u32
  porcelain_id ← next_u32
  timestamp ← next_u64
  left ← next_double
  top ← next_double
  right ← next_double
  bottom ← next_double
  resolution ← next_double
  pure (record {
    sensor_id = sensor_id;
    porcelain_id = porcelain_id;
    timestamp = timestamp;
    scan_area = (left, top, right, bottom);
    resolution = resolution;
  })

-- What a parser returns: the value, whatever the offset.
abbrev pub without_offset : {A : Type 0} → Outcome (A × ℕ) → Outcome A
without_offset (returned (a, offset)) = returned a
without_offset (thrown e) = thrown e
without_offset faulted = faulted

module _ (json : JsonLibrary) where
  open json use {Json, null}

  -- The tail of both parsers: a length, and that many bytes of JSON if they are there.
  unfoldable pub parse_tail : ℕ → Cursor Json
  parse_tail json_length payload offset =
      if ltb 0 json_length && leb (offset + json_length) (length payload)
      then elim (json.parse (take json_length (drop offset payload))) [
        | none ↦ thrown json_error
        | some j ↦ returned (j, offset)
      ]
      else returned (null, offset)

  unfoldable pub read_json : Cursor Json
  unfolding next_u32 parse_tail ◌>>=◌
  read_json = do json_length ← next_u32; parse_tail json_length

  -- From `crack_count` on; `flag` is the byte of `crack_detected`.
  unfoldable pub read_detected : LaserHead → ℕ → Cursor (LaserMicroscopeData Json)
  unfolding next_u32 next_many read_crack read_json ◌>>=◌
  read_detected head flag = do
    crack_count ← next_u32
    cracks ← next_many (int_rounds crack_count) (read_crack head.porcelain_id)
    processed_data ← read_json
    pure (record {
      sensor_id = head.sensor_id;
      porcelain_id = head.porcelain_id;
      measurement_time = head.timestamp;
      scan_area = head.scan_area;
      resolution = head.resolution;
      crack_detected = not (flag == 0);
      crack_count = crack_count;
      cracks = cracks;
      processed_data = processed_data;
    })

  -- From `crack_detected` on.
  unfoldable pub read_detection : LaserHead → Cursor (LaserMicroscopeData Json)
  unfolding next_byte read_detected ◌>>=◌
  read_detection head = do flag ← next_byte; read_detected head flag

  unfoldable pub read_laser_data : Cursor (LaserMicroscopeData Json)
  unfolding read_laser_head read_detection ◌>>=◌
  read_laser_data = do head ← read_laser_head; read_detection head

  unfoldable pub parse_laser_data : List ℕ → Outcome (LaserMicroscopeData Json)
  unfolding read_laser_data
  parse_laser_data payload = without_offset (read_laser_data payload 0)

  unfoldable pub read_vibration_data : Cursor (VibrationData Json)
  unfolding next_u32 next_u64 next_double next_float next_many read_json widen ◌>>=◌
  read_vibration_data = do
    sensor_id ← next_u32
    porcelain_id ← next_u32
    timestamp ← next_u64
    rms_value ← next_double
    peak_value ← next_double
    dominant_frequency ← next_double
    temperature ← next_float
    humidity ← next_float
    amplitude_count ← next_u32
    amplitude ← next_many amplitude_count next_double
    frequency_spectrum ← read_json
    pure (record {
      sensor_id = sensor_id;
      porcelain_id = porcelain_id;
      measurement_time = timestamp;
      frequency_spectrum = frequency_spectrum;
      amplitude = amplitude;
      rms_value = rms_value;
      peak_value = peak_value;
      dominant_frequency = dominant_frequency;
      temperature = widen temperature;
      humidity = widen humidity;
    })

  unfoldable pub parse_vibration_data : List ℕ → Outcome (VibrationData Json)
  unfolding read_vibration_data
  parse_vibration_data payload = without_offset (read_vibration_data payload 0)
