-- ===== src/Json.antt =====
-- What the program uses of `nlohmann::json`, a library that it does not implement: values, the null
-- value of a field that was never set, `dump` and the throwing `parse`.
use ai_solo_coder_task_a.Prelude.{Bool, List, Option, String, ℕ}

pub record JsonLibrary : Type 1 where
  pub Json : Type 0
  pub null : Json
  -- `none` is the exception `json::parse_error`
  pub parse : List ℕ → Option Json
  pub dump : Json → List ℕ

-- The constructors of a JSON value that the program calls; a `double` is given by its pattern.
pub record JsonValues (Json : Type 0) : Type 0 where
  pub null : Json
  pub double : ℕ → Json
  pub integer : ℕ → Json
  pub boolean : Bool → Json
  pub text : String → Json
  pub array : List Json → Json
  pub object : List (String × Json) → Json
