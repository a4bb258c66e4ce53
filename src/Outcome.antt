-- ===== src/Outcome.antt =====
-- How a C++ call ends: it returns, it throws one of the exceptions of
-- backend/src/profinet_parser.cpp, or it runs into undefined behaviour (an access out of bounds, a
-- null pointer, a read of a deleted object).
use ai_solo_coder_task_a.Prelude.{Bool, Option, false, none, some, true}

-- The exceptions the program throws or lets pass.
pub data Exception : Type 0 where
  out_of_range header_too_small incomplete_payload json_error : Exception

pub data Outcome {ℓ} (A : Type ℓ) : Type ℓ where
  returned : A → Outcome A
  thrown : Exception → Outcome A
  faulted : Outcome A

infixl 5 ◌>>=◌ ◌>>◌
abbrev pub ◌>>=◌ {ℓ κ} : {A : Type ℓ} {B : Type κ} → Outcome A → (A → Outcome B) → Outcome B
returned a >>= f = f a
thrown e >>= f = thrown e
faulted >>= f = faulted

abbrev pub ◌>>◌ {ℓ} : {B : Type ℓ} → Outcome (Unit {0}) → Outcome B → Outcome B
m >> k = m >>= λ _. k

-- `if (bad) throw e;`
abbrev pub throw_if : Bool → Exception → Outcome (Unit {0})
throw_if true e = thrown e
throw_if false e = returned tt

-- What an unchecked access gives: the element, or undefined behaviour.
abbrev pub or_fault {ℓ} : {A : Type ℓ} → Option A → Outcome A
or_fault none = faulted
or_fault (some a) = returned a
