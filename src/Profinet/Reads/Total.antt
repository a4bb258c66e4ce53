-- ===== src/Profinet/Reads/Total.antt =====
-- The reads, where enough bytes are left and where too few are.
use ai_solo_coder_task_a.Bytes.{word_at, word_at-get_elem?}
use ai_solo_coder_task_a.Outcome.{out_of_range, returned, thrown}
use ai_solo_coder_task_a.Prelude.{
  Bool-cases, List, arith, get_elem?_exists, if◌then◌else◌, inl, inr, leb, length, refl, suc, zero,
  ℕ, ◌*◌, ◌+◌, ◌^◌, ◌≡◌, ◌≤◌,
}
use ai_solo_coder_task_a.Profinet.Reads.{or_bytes, read_u16, read_u32, read_u64}

module _ (bytes : List ℕ) (offset : ℕ) where
  pub read_u16_word : read_u16 bytes offset ≡ (
      if leb (length bytes) (offset + 1)
      then thrown out_of_range
      else returned (word_at bytes offset))
  unfolding read_u16
  read_u16_word = elim (Bool-cases (leb (length bytes) (offset + 1))) [
    | inl short ↦ rw short
    | inr long ↦
        let (b0, e0) = get_elem?_exists bytes offset (ground arith) in
        let (b1, e1) = get_elem?_exists bytes (offset + 1) (ground arith) in
        ground (arith, word_at-get_elem? bytes offset b0 b1 e0 e1)
  ]

  pub read_u32_total : offset + 4 ≤ length bytes → (v : ℕ) × (read_u32 bytes offset ≡ returned v)
  unfolding read_u32
  read_u32_total h =
      let (b0, e0) = get_elem?_exists bytes offset (omega arith) in
      let (b1, e1) = get_elem?_exists bytes (offset + 1) (omega arith) in
      let (b2, e2) = get_elem?_exists bytes (offset + 2) (omega arith) in
      let (b3, e3) = get_elem?_exists bytes (offset + 3) (omega arith) in
      (b0 + b1 * 2 ^ 8 + b2 * 2 ^ 16 + b3 * 2 ^ 24, ground arith)

-- The loop of `read_u64` returns while its bytes are there.
or_bytes_total :
    (rounds i : ℕ) (bytes : List ℕ) (offset value : ℕ)
    → offset + i + rounds ≤ length bytes
    → (v : ℕ) × (or_bytes rounds i bytes offset value ≡ returned v)
unfolding or_bytes
or_bytes_total zero i bytes offset value h = (value, refl)
or_bytes_total (suc rounds) i bytes offset value h =
    let (b, e) = get_elem?_exists bytes (offset + i) (omega arith) in
    let (v, r) =
      or_bytes_total rounds (i + 1) bytes offset (value + b * 2 ^ (i * 8)) (omega arith) in
    (v, rw e r)

pub read_u64_total :
    (bytes : List ℕ) (offset : ℕ)
    → offset + 8 ≤ length bytes
    → (v : ℕ) × (read_u64 bytes offset ≡ returned v)
unfolding read_u64
read_u64_total bytes offset h =
    let (v, e) = or_bytes_total 8 0 bytes offset 0 (omega arith) in (v, ground arith)
