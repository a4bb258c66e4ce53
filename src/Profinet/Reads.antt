-- ===== src/Profinet/Reads.antt =====
-- backend/src/profinet_parser.cpp, `read_u16` to `write_u32`: words in a byte vector, least
-- significant byte first. The operands of `|` have no bit in common, so it is written as a sum. A
-- `float` or `double` is its bit pattern: `memcpy` moves the word unchanged.
pub mod Total
use ai_solo_coder_task_a.Bytes.{byte_at, byte_of, write_at}
use ai_solo_coder_task_a.Outcome.{Outcome, out_of_range, returned, throw_if, ◌>>=◌, ◌>>◌}
use ai_solo_coder_task_a.Prelude.{List, leb, length, suc, zero, ℕ, ◌*◌, ◌+◌, ◌^◌}

unfoldable pub read_u16 : List ℕ → ℕ → Outcome ℕ
read_u16 bytes offset = do
  throw_if (leb (length bytes) (offset + 1)) out_of_range
  b0 ← byte_at bytes offset
  b1 ← byte_at bytes (offset + 1)
  returned (b0 + b1 * 2 ^ 8)

unfoldable pub read_u32 : List ℕ → ℕ → Outcome ℕ
read_u32 bytes offset = do
  throw_if (leb (length bytes) (offset + 3)) out_of_range
  b0 ← byte_at bytes offset
  b1 ← byte_at bytes (offset + 1)
  b2 ← byte_at bytes (offset + 2)
  b3 ← byte_at bytes (offset + 3)
  returned (b0 + b1 * 2 ^ 8 + b2 * 2 ^ 16 + b3 * 2 ^ 24)

-- The loop of `read_u64`, with `rounds` still to make: `i` counts up to 8.
or_bytes : ℕ → ℕ → List ℕ → ℕ → ℕ → Outcome ℕ
or_bytes zero i bytes offset value = returned value
or_bytes (suc rounds) i bytes offset value = do
  b ← byte_at bytes (offset + i)
  or_bytes rounds (i + 1) bytes offset (value + b * 2 ^ (i * 8))

unfoldable pub read_u64 : List ℕ → ℕ → Outcome ℕ
unfolding or_bytes
read_u64 bytes offset = do
  throw_if (leb (length bytes) (offset + 7)) out_of_range
  or_bytes 8 0 bytes offset 0

unfoldable pub read_float : List ℕ → ℕ → Outcome ℕ
unfolding read_u32
read_float bytes offset = do
  throw_if (leb (length bytes) (offset + 3)) out_of_range
  read_u32 bytes offset

unfoldable pub read_double : List ℕ → ℕ → Outcome ℕ
unfolding read_u64
read_double bytes offset = do
  throw_if (leb (length bytes) (offset + 7)) out_of_range
  read_u64 bytes offset

unfoldable pub write_u16 : List ℕ → ℕ → ℕ → Outcome (List ℕ)
write_u16 bytes offset value = do
  once ← write_at bytes offset (byte_of value 0)
  write_at once (offset + 1) (byte_of value 1)

write_bytes : ℕ → ℕ → List ℕ → ℕ → ℕ → Outcome (List ℕ)
write_bytes zero i bytes offset value = returned bytes
write_bytes (suc rounds) i bytes offset value = do
  once ← write_at bytes (offset + i) (byte_of value i)
  write_bytes rounds (i + 1) once offset value

unfoldable pub write_u32 : List ℕ → ℕ → ℕ → Outcome (List ℕ)
unfolding write_bytes
write_u32 bytes offset value = write_bytes 4 0 bytes offset value
