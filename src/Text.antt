-- ===== src/Text.antt =====
-- Texts: `==` of two strings, and `std::to_string` of an unsigned number, the decimal digits, most
-- significant first.
use Prim.Native.Nat.{Ordering}
use Prim.Native.String.{◌++◌ as str_append, compare as compare_text}
use ai_solo_coder_task_a.Prelude.{
  Bool, String, false, if◌then◌else◌, ltb, refl, suc, true, zero, ℕ, ◌%◌, ◌/◌, ◌==◌, ◌≡◌,
}

unfoldable pub same_text : String → String → Bool
same_text a b = elim (compare_text a b) [ Ordering.eq ↦ true | _ ↦ false ]

abbrev digit : ℕ → String
digit d =
    if d == 0
    then "0"
    else if d == 1
    then "1"
    else if d == 2
    then "2"
    else if d == 3
    then "3"
    else if d == 4
    then "4"
    else if d == 5
    then "5"
    else if d == 6
    then "6"
    else if d == 7
    then "7"
    else if d == 8
    then "8"
    else "9"

-- Twenty digits hold every 64-bit number.
decimal : ℕ → ℕ → String → String
decimal zero n shown = shown
decimal (suc fuel) n shown =
    let rest = decimal fuel (n / 10) (str_append (digit (n % 10)) shown) in
    if ltb n 10 then str_append (digit n) shown else rest

unfoldable pub to_string : ℕ → String
unfolding decimal
to_string n = decimal 20 n ""

to_string_runs : to_string 34964 ≡ "34964"
unfolding to_string
to_string_runs = refl
