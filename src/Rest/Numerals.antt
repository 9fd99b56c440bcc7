-- ===== src/Rest/Numerals.antt =====
-- `std::to_string` and `std::stoi` as src/rest.cpp uses them.
pub mod RoundTrip
use stoatpp.Prelude.{
  ℕ, zero, suc, ◌+◌, ◌-◌, ◌*◌, ◌/◌, ◌%◌, ◌^◌, Bool, true, false, Option, none, some, [], ◌∷◌, ◌++◌,
  ltb, leb, ◌==◌, ◌&&◌, if◌then◌else◌,
}
use stoatpp.Prelude.Int.{ℤ, pos, negsuc}
use stoatpp.Text.{Text}
use stoatpp.Commands.Parse.{is_space}

-- The digits of a number; as many as the fuel are enough.
abbrev pub decimal_digits : ℕ → ℕ → Text
decimal_digits zero n = (b'0' + n % 10) ∷ []
decimal_digits (suc fuel) n =
    let rest = decimal_digits fuel (n / 10) in
    if ltb n 10 then (b'0' + n) ∷ [] else rest ++ (b'0' + n % 10) ∷ []

unfoldable pub to_string : ℤ → Text
to_string (pos n) = decimal_digits n n
to_string (negsuc n) = b'-' ∷ decimal_digits (suc n) (suc n)

abbrev is_digit : ℕ → Bool
is_digit c = leb b'0' c && leb c b'9'

-- The number that the leading digits spell, after the digits read so far.
abbrev digits_value : ℕ → Text → ℕ
digits_value n [] = n
digits_value n (c ∷ s) =
    let rest = digits_value (n * 10 + (c - b'0')) s in if is_digit c then rest else n

-- No digit: `std::invalid_argument`.
abbrev unsigned_value : Text → Option ℕ
unsigned_value [] = none
unsigned_value (c ∷ s) = if is_digit c then some (digits_value 0 (c ∷ s)) else none

-- Outside `int`: `std::out_of_range`.
abbrev in_range : Bool → Option ℕ → Option ℤ
in_range negative none = none
in_range false (some n) = if ltb n (2 ^ 31) then some (pos n) else none
in_range true (some zero) = some (pos 0)
in_range true (some (suc n)) = if ltb n (2 ^ 31) then some (negsuc n) else none

abbrev signed_value : Text → Option ℤ
signed_value [] = none
signed_value (c ∷ s) =
    if c == b'-'
    then in_range true (unsigned_value s)
    else if c == b'+'
    then in_range false (unsigned_value s)
    else in_range false (unsigned_value (c ∷ s))

abbrev skip_spaces : Text → Text
skip_spaces [] = []
skip_spaces (c ∷ s) = let rest = skip_spaces s in if is_space c then rest else c ∷ s

-- `none` is an exception.
unfoldable pub stoi : Text → Option ℤ
stoi s = signed_value (skip_spaces s)
