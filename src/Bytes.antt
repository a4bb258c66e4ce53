-- ===== src/Bytes.antt =====
-- `std::vector<uint8_t>` as a list of numbers below 256, with the element access that C++ does not
-- check, and the bytes of a word, least significant first.
use Prim.Native.Nat.add
use ai_solo_coder_task_a.Outcome.{Outcome, faulted, or_fault, returned}
use ai_solo_coder_task_a.Prelude.{
  List, [], arith, drop, get_elem?, if◌then◌else◌, length, ltb, refl, set, some, suc, take, zero, ℕ,
  ◌%◌, ◌*◌, ◌+◌, ◌/◌, ◌^◌, ◌∷◌, ◌≡◌,
}

-- `data[i]`
abbrev pub byte_at : List ℕ → ℕ → Outcome ℕ
byte_at bytes i = or_fault (get_elem? bytes i)

-- `data[i] = b`
abbrev pub write_at : List ℕ → ℕ → ℕ → Outcome (List ℕ)
write_at bytes i b = if ltb i (length bytes) then returned (set bytes i b) else faulted

-- `(value >> (i * 8)) & 0xFF`
abbrev pub byte_of : ℕ → ℕ → ℕ
byte_of value i = value / 2 ^ (i * 8) % 256

-- The word whose bytes, least significant first, are given.
abbrev pub le_value : List ℕ → ℕ
le_value [] = 0
le_value (b ∷ bytes) = b + 256 * le_value bytes

pub get_elem?-drop :
    (bytes : List ℕ) (n i : ℕ) → get_elem? bytes (n + i) ≡ get_elem? (drop n bytes) i
get_elem?-drop bytes zero i = rw add.zero
get_elem?-drop [] (suc n) i = refl
get_elem?-drop (b ∷ bytes) (suc n) i = rw add.suc (get_elem?-drop bytes n i)

pub get_elem?-drop-zero :
    (bytes : List ℕ) (n : ℕ) → get_elem? bytes n ≡ get_elem? (drop n bytes) zero
get_elem?-drop-zero bytes zero = refl
get_elem?-drop-zero [] (suc n) = refl
get_elem?-drop-zero (b ∷ bytes) (suc n) = get_elem?-drop-zero bytes n

-- The number in the two bytes at an offset.
abbrev pub word_at : List ℕ → ℕ → ℕ
word_at bytes offset = le_value (take 2 (drop offset bytes))

pub word_at-get_elem? :
    (bytes : List ℕ) (offset b0 b1 : ℕ)
    → get_elem? bytes offset ≡ some b0
    → get_elem? bytes (offset + 1) ≡ some b1
    → word_at bytes offset ≡ b0 + b1 * 2 ^ 8
word_at-get_elem? [] zero b0 b1 e f = cc
word_at-get_elem? [] (suc n) b0 b1 e f = cc
word_at-get_elem? (x ∷ []) zero b0 b1 e f = cc
word_at-get_elem? (x ∷ y ∷ bytes) zero b0 b1 e f = ground arith
word_at-get_elem? (x ∷ bytes) (suc n) b0 b1 e f =
    word_at-get_elem? bytes n b0 b1 e (rw add.suc at f)
