-- ===== src/Simulator/Encode.antt =====
-- simulator/main.cpp, `append_u16` to `append_double`: a word's bytes pushed back, least significant
-- first. A `float` or `double` is its bit pattern.
use ai_solo_coder_task_a.Bytes.{byte_of}
use ai_solo_coder_task_a.Prelude.{List, [], append_assoc, suc, zero, ℕ, ◌++◌, ◌+◌, ◌∷◌, ◌≡◌}

-- The loop of `append_u32` and `append_u64`, with `rounds` still to make.
append_bytes : ℕ → ℕ → List ℕ → ℕ → List ℕ
append_bytes zero i buf value = buf
append_bytes (suc rounds) i buf value =
    append_bytes rounds (i + 1) (buf ++ byte_of value i ∷ []) value

unfoldable pub append_u16 : List ℕ → ℕ → List ℕ
append_u16 buf value = (buf ++ byte_of value 0 ∷ []) ++ byte_of value 1 ∷ []

unfoldable pub append_u32 : List ℕ → ℕ → List ℕ
unfolding append_bytes
append_u32 buf value = append_bytes 4 0 buf value

unfoldable pub append_u64 : List ℕ → ℕ → List ℕ
unfolding append_bytes
append_u64 buf value = append_bytes 8 0 buf value

unfoldable pub append_float : List ℕ → ℕ → List ℕ
append_float buf value = append_u32 buf value

unfoldable pub append_double : List ℕ → ℕ → List ℕ
append_double buf value = append_u64 buf value

abbrev pub u16_bytes : ℕ → List ℕ
u16_bytes v = byte_of v 0 ∷ byte_of v 1 ∷ []

abbrev pub u32_bytes : ℕ → List ℕ
u32_bytes v = byte_of v 0 ∷ byte_of v 1 ∷ byte_of v 2 ∷ byte_of v 3 ∷ []

abbrev pub u64_bytes : ℕ → List ℕ
u64_bytes v =
    byte_of v 0
    ∷ byte_of v 1
    ∷ byte_of v 2
    ∷ byte_of v 3
    ∷ byte_of v 4
    ∷ byte_of v 5
    ∷ byte_of v 6
    ∷ byte_of v 7
    ∷ []

pub append_u16_lem : (buf : List ℕ) (v : ℕ) → append_u16 buf v ≡ buf ++ u16_bytes v
unfolding append_u16
append_u16_lem buf v = simp append_assoc

pub append_u32_lem : (buf : List ℕ) (v : ℕ) → append_u32 buf v ≡ buf ++ u32_bytes v
unfolding append_u32
append_u32_lem buf v = simp append_assoc

pub append_u64_lem : (buf : List ℕ) (v : ℕ) → append_u64 buf v ≡ buf ++ u64_bytes v
unfolding append_u64
append_u64_lem buf v = simp append_assoc

pub append_float_lem : (buf : List ℕ) (v : ℕ) → append_float buf v ≡ buf ++ u32_bytes v
unfolding append_float
append_float_lem buf v = append_u32_lem buf v

pub append_double_lem : (buf : List ℕ) (v : ℕ) → append_double buf v ≡ buf ++ u64_bytes v
unfolding append_double
append_double_lem buf v = append_u64_lem buf v

pub ruleset appends = (
  append_u16_lem, append_u32_lem, append_u64_lem, append_float_lem, append_double_lem, append_assoc,
)
