-- ===== src/Profinet/Cursor/Laws.antt =====
-- What a reading step gives when the bytes at the offset are known, and when too few are left.
use Prim.Native.Nat.add
use ai_solo_coder_task_a.Bytes.{get_elem?-drop, get_elem?-drop-zero, le_value}
use ai_solo_coder_task_a.Outcome.{out_of_range, returned, thrown}
use ai_solo_coder_task_a.Prelude.{
  List, [], arith, drop, length, length-drop, refl, suc, zero, ℕ, ◌*◌, ◌++◌, ◌+◌, ◌<◌, ◌^◌, ◌∷◌,
  ◌≡◌,
}
use ai_solo_coder_task_a.Profinet.Reads.{read_u16, read_u32, read_u64}
use ai_solo_coder_task_a.Simulator.Encode.{u16_bytes, u32_bytes, u64_bytes}

module _ {ℓ} {A : Type ℓ} where
  pub drop-drop : (n m : ℕ) (xs : List A) → drop (n + m) xs ≡ drop m (drop n xs)
  drop-drop zero m xs = rw add.zero
  drop-drop (suc n) zero [] = rw add.suc
  drop-drop (suc n) (suc m) [] = rw add.suc
  drop-drop (suc n) m (x ∷ xs) = rw add.suc (drop-drop n m xs)

  pub drop-append : (xs ys : List A) → drop (length xs) (xs ++ ys) ≡ ys
  drop-append [] ys = refl
  drop-append (x ∷ xs) ys = drop-append xs ys

-- The reads of the first bytes at an offset.
module _ (bytes : List ℕ) (offset : ℕ) where
  pub read_u16_lem :
      (b0 b1 : ℕ) (rest : List ℕ)
      → drop offset bytes ≡ b0 ∷ b1 ∷ rest
      → read_u16 bytes offset ≡ returned (b0 + b1 * 2 ^ 8)
  unfolding read_u16
  read_u16_lem b0 b1 rest at = ground (
    arith,
    length-drop offset bytes,
    get_elem?-drop-zero bytes offset,
    get_elem?-drop bytes offset 1,
  )

  pub read_u32_lem :
      (b0 b1 b2 b3 : ℕ) (rest : List ℕ)
      → drop offset bytes ≡ b0 ∷ b1 ∷ b2 ∷ b3 ∷ rest
      → read_u32 bytes offset ≡ returned (le_value (b0 ∷ b1 ∷ b2 ∷ b3 ∷ []))
  unfolding read_u32
  read_u32_lem b0 b1 b2 b3 rest at = ground (
    arith,
    length-drop offset bytes,
    get_elem?-drop-zero bytes offset,
    get_elem?-drop bytes offset 1,
    get_elem?-drop bytes offset 2,
    get_elem?-drop bytes offset 3,
  )

  pub read_u64_lem :
      (b0 b1 b2 b3 b4 b5 b6 b7 : ℕ) (rest : List ℕ)
      → drop offset bytes ≡ b0 ∷ b1 ∷ b2 ∷ b3 ∷ b4 ∷ b5 ∷ b6 ∷ b7 ∷ rest
      → read_u64 bytes offset ≡ returned (le_value (b0 ∷ b1 ∷ b2 ∷ b3 ∷ b4 ∷ b5 ∷ b6 ∷ b7 ∷ []))
  unfolding read_u64
  read_u64_lem b0 b1 b2 b3 b4 b5 b6 b7 rest at = ground (
    arith,
    length-drop offset bytes,
    get_elem?-drop bytes offset 0,
    get_elem?-drop bytes offset 1,
    get_elem?-drop bytes offset 2,
    get_elem?-drop bytes offset 3,
    get_elem?-drop bytes offset 4,
    get_elem?-drop bytes offset 5,
    get_elem?-drop bytes offset 6,
    get_elem?-drop bytes offset 7,
  )

  pub read_u32_short : length bytes < offset + 4 → read_u32 bytes offset ≡ thrown out_of_range
  unfolding read_u32
  read_u32_short h = ground arith

  pub read_u64_short : length bytes < offset + 8 → read_u64 bytes offset ≡ thrown out_of_range
  unfolding read_u64
  read_u64_short h = ground arith

pub le_value-u16_bytes : (v : ℕ) → v < 2 ^ 16 → le_value (u16_bytes v) ≡ v
le_value-u16_bytes v h = omega arith

pub le_value-u32_bytes : (v : ℕ) → v < 2 ^ 32 → le_value (u32_bytes v) ≡ v
le_value-u32_bytes v h = omega arith

pub le_value-u64_bytes : (v : ℕ) → v < 2 ^ 64 → le_value (u64_bytes v) ≡ v
le_value-u64_bytes v h = omega arith
