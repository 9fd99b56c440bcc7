-- ===== src/Rest/UrlEncode.antt =====
-- `url_encode` of src/rest.cpp.
pub mod Inverse
use stoatpp.Prelude.{ℕ, ◌+◌, ◌/◌, ◌%◌, Bool, [], ◌∷◌, ◌==◌, ◌&&◌, ◌||◌, leb, ltb, if◌then◌else◌}
use stoatpp.Text.{Text}

-- `std::isalnum` in the "C" locale, or one of four marks.
abbrev pub is_unreserved : ℕ → Bool
is_unreserved c =
    (leb b'0' c && leb c b'9')
    || (leb b'A' c && leb c b'Z')
    || (leb b'a' c && leb c b'z')
    || c == b'-'
    || c == b'_'
    || c == b'.'
    || c == b'~'

-- A digit as `std::hex` and `std::uppercase` print it.
abbrev pub hex_digit : ℕ → ℕ
hex_digit n = if ltb n 10 then b'0' + n else 55 + n

unfoldable pub url_encode : Text → Text
url_encode [] = []
url_encode (c ∷ value) =
    let rest = url_encode value in
    if is_unreserved c then c ∷ rest else b'%' ∷ hex_digit (c / 16) ∷ hex_digit (c % 16) ∷ rest
