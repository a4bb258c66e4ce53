-- ===== src/Profinet/Payload/Faults.antt =====
-- Which payloads lead the parsers into undefined behaviour.
use ai_solo_coder_task_a.Json.{JsonLibrary}
use ai_solo_coder_task_a.Outcome.{Outcome, faulted, returned, thrown}
use ai_solo_coder_task_a.Prelude.{
  List, ap, arith, dec_le, dec_lt, get_elem?, get_elem?_exists, get_elem?-none, length, none, refl,
  sym, ℕ, ◌+◌, ◌↔◌, ◌∙◌, ◌≡◌, ◌≢◌, ◌≤◌,
}
use ai_solo_coder_task_a.Profinet.Cursor.{next_byte, ◌>>=◌}
use ai_solo_coder_task_a.Profinet.Cursor.Safe.{
  IsSafe, Takes, Takes-bind, Takes-double, Takes-map, Takes-u32, Takes-u64, safe_rules,
}
use ai_solo_coder_task_a.Profinet.Payload.{
  LaserHead, parse_laser_data, parse_tail, parse_vibration_data, read_crack, read_detected,
  read_detection, read_json, read_laser_data, read_laser_head, read_point, read_vibration_data,
  without_offset,
}

read_point-IsSafe : IsSafe read_point
unfolding read_point
read_point-IsSafe = search safe_rules depth 30

read_crack-IsSafe : (porcelain_id : ℕ) → IsSafe (read_crack porcelain_id)
unfolding read_crack
read_crack-IsSafe porcelain_id = search (safe_rules, read_point-IsSafe) depth 14

pub read_laser_head-Takes : Takes 56 read_laser_head
unfolding read_laser_head
read_laser_head-Takes = Takes-bind _ Takes-u32 λ _. Takes-bind _ Takes-u32 λ _.
    Takes-bind _ Takes-u64 λ _. Takes-bind _ Takes-double λ _.
      Takes-bind _ Takes-double
        λ _. Takes-bind _ Takes-double λ _. Takes-bind _ Takes-double λ _. Takes-map _ Takes-double

without_offset-eq-faulted :
    {A : Type 0} (r : Outcome (A × ℕ)) → without_offset r ≡ faulted → r ≡ faulted
without_offset-eq-faulted (returned a) h = cc
without_offset-eq-faulted (thrown e) h = cc
without_offset-eq-faulted faulted h = refl

module _ (json : JsonLibrary) where
  parse_tail-IsSafe : (json_length : ℕ) → IsSafe (parse_tail json json_length)
  unfolding parse_tail
  parse_tail-IsSafe json_length = record { at = λ payload offset e. ground arith }

  read_json-IsSafe : IsSafe (read_json json)
  unfolding read_json
  read_json-IsSafe = search (safe_rules, parse_tail-IsSafe)

  read_detection_tail-IsSafe : (head : LaserHead) (flag : ℕ) → IsSafe (read_detected json head flag)
  unfolding read_detected
  read_detection_tail-IsSafe head flag =
      search (safe_rules, read_crack-IsSafe, read_json-IsSafe) depth 12

  -- From the head on, the only unchecked access is that of the flag.
  read_detection_faults :
      (head : LaserHead) (payload : List ℕ) (offset : ℕ)
      → (read_detection json head payload offset ≡ faulted) ↔ (length payload ≤ offset)
  unfolding read_detection next_byte
  read_detection_faults head payload offset = elim (dec_lt offset (length payload)) [
    | yes there ↦
        let (b, e) = get_elem?_exists payload offset there in
        (
          λ r. absurd ((read_detection_tail-IsSafe head b).at payload (offset + 1) (rw e at r)),
          λ h. absurd (omega arith),
        )
    | no missing ↦
        let e : get_elem? payload offset ≡ none = get_elem?-none payload offset (omega arith) in
        (λ r. omega arith, λ h. rw e)
  ]

  -- `parse_laser_data` reaches undefined behaviour on the payloads of exactly 56 bytes, whose flag
  -- byte it reads unchecked behind the end, and on no other payload.
  pub parse_laser_data_faults :
      (payload : List ℕ) → (parse_laser_data json payload ≡ faulted) ↔ (length payload ≡ 56)
  unfolding parse_laser_data
  parse_laser_data_faults payload = elim (dec_le 56 (length payload)) [
    | yes there ↦
        let (head, e) = read_laser_head-Takes.enough payload 0 (omega arith) in
        let rest : read_laser_data json payload 0 ≡ read_detection json head payload 56 =
          unfold read_laser_data ◌>>=◌ in rw e in
        let faults = read_detection_faults head payload 56 in
        (
          λ r. omega (arith, faults.0 (sym rest ∙ without_offset-eq-faulted _ r)),
          λ h. ap without_offset (rest ∙ faults.1 (omega arith)),
        )
    | no missing ↦
        (λ r. cc (read_laser_head-Takes.short payload 0 (omega arith)), λ h. absurd (omega arith))
  ]

  read_vibration_data-IsSafe : IsSafe (read_vibration_data json)
  unfolding read_vibration_data
  read_vibration_data-IsSafe = search (safe_rules, read_json-IsSafe) depth 40

  -- `parse_vibration_data` returns or throws on every payload: it has no undefined behaviour.
  pub parse_vibration_data-ne-faulted :
      (payload : List ℕ) → parse_vibration_data json payload ≢ faulted
  unfolding parse_vibration_data
  parse_vibration_data-ne-faulted payload e =
      read_vibration_data-IsSafe.at payload 0 (without_offset-eq-faulted _ e)
