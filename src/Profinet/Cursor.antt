-- ===== src/Profinet/Cursor.antt =====
-- The reading style of `parse_laser_data` and `parse_vibration_data`: each step reads at `offset` and
-- moves it on, as in `x = read_u32(payload, offset); offset += 4;`.
pub mod Laws
pub mod Encodes
pub mod Safe
pub mod Spends
use ai_solo_coder_task_a.Outcome
use ai_solo_coder_task_a.Bytes.{byte_at}
use ai_solo_coder_task_a.Outcome.{Outcome, faulted, returned, thrown}
use ai_solo_coder_task_a.Prelude.{List, [], suc, zero, ℕ, ◌+◌, ◌∷◌}
use ai_solo_coder_task_a.Profinet.Reads.{read_double, read_float, read_u32, read_u64}

-- A reading step: the payload and the offset before it, the value and the offset after it.
abbrev pub Cursor : Type 0 → Type 0
Cursor A = List ℕ → ℕ → Outcome (A × ℕ)

abbrev pub pure : {A : Type 0} → A → Cursor A
pure a payload offset = returned (a, offset)

abbrev continue : {A B : Type 0} → Outcome (A × ℕ) → (A → Cursor B) → List ℕ → Outcome (B × ℕ)
continue (returned (a, offset)) f payload = f a payload offset
continue (thrown e) f payload = thrown e
continue faulted f payload = faulted

infixl 5 ◌>>=◌ ◌>>◌
unfoldable pub ◌>>=◌ : {A B : Type 0} → Cursor A → (A → Cursor B) → Cursor B
◌>>=◌ m f payload offset = continue (m payload offset) f payload

abbrev pub ◌>>◌ : {B : Type 0} → Cursor (Unit {0}) → Cursor B → Cursor B
m >> k = m >>= λ _. k

-- Move the offset on by the size of what was read.
abbrev advance : Outcome ℕ → ℕ → ℕ → Outcome (ℕ × ℕ)
advance (returned v) size offset = returned (v, offset + size)
advance (thrown e) size offset = thrown e
advance faulted size offset = faulted

unfoldable pub next_u32 : Cursor ℕ
next_u32 payload offset = advance (read_u32 payload offset) 4 offset

unfoldable pub next_u64 : Cursor ℕ
next_u64 payload offset = advance (read_u64 payload offset) 8 offset

unfoldable pub next_float : Cursor ℕ
next_float payload offset = advance (read_float payload offset) 4 offset

unfoldable pub next_double : Cursor ℕ
next_double payload offset = advance (read_double payload offset) 8 offset

-- `payload[offset++]`, which is not checked.
unfoldable pub next_byte : Cursor ℕ
next_byte payload offset = advance (byte_at payload offset) 1 offset

-- A loop of `rounds` rounds that pushes back what its body reads.
unfoldable pub next_many : {A : Type 0} → ℕ → Cursor A → Cursor (List A)
unfolding ◌>>=◌
next_many zero body = pure []
next_many (suc rounds) body = do a ← body; rest ← next_many rounds body; pure (a ∷ rest)
