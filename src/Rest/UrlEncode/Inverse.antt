-- ===== src/Rest/UrlEncode/Inverse.antt =====
-- `url_encode` of src/rest.cpp loses nothing.
use stoatpp.Prelude.{
  ℕ, ◌+◌, ◌-◌, ◌*◌, ◌/◌, ◌%◌, ◌<◌, ◌≡◌, refl, true, false, [], ◌∷◌, ◌==◌, ltb, arith, Every,
  Bool-cases, inl, inr, if◌then◌else◌,
}
use stoatpp.Text.{Text}
use stoatpp.Rest.UrlEncode.{is_unreserved, hex_digit, url_encode}

abbrev hex_value : ℕ → ℕ
hex_value d = if ltb d 65 then d - b'0' else d - 55

-- What a server does with an escaped path.
unfoldable pub percent_decode : Text → Text
percent_decode [] = []
percent_decode (c ∷ []) = c ∷ []
percent_decode (c ∷ a ∷ []) = c ∷ a ∷ []
percent_decode (c ∷ a ∷ b ∷ s) =
    let after = percent_decode s in
    let next = percent_decode (a ∷ b ∷ s) in
    if c == b'%' then (hex_value a * 16 + hex_value b) ∷ after else c ∷ next

percent_decode-plain :
    (c : ℕ) (s : Text) → (c == b'%') ≡ false → percent_decode (c ∷ s) ≡ c ∷ percent_decode s
unfolding percent_decode
percent_decode-plain c [] h = refl
percent_decode-plain c (a ∷ []) h = refl
percent_decode-plain c (a ∷ b ∷ s) h = rw h refl

hex_value-hex_digit : (n : ℕ) → n < 16 → hex_value (hex_digit n) ≡ n
hex_value-hex_digit n small = ground arith

unreserved-plain : (c : ℕ) → is_unreserved c ≡ true → (c == b'%') ≡ false
unreserved-plain c h = ground arith

-- Percent-decoding an encoded string of bytes gives the string back, so that no two strings have the same
-- encoding.
pub percent_decode-url_encode :
    (s : Text) → Every (λ c. c < 256) s → percent_decode (url_encode s) ≡ s
unfolding url_encode percent_decode
percent_decode-url_encode [] bytes = refl
percent_decode-url_encode (c ∷ s) bytes =
    let rest = percent_decode-url_encode s bytes.1 in
    elim (Bool-cases (is_unreserved c)) [
      | inl plain ↦
          rw
            (
              url_encode,
              plain,
              percent_decode-plain c (url_encode s) (unreserved-plain c plain),
              rest,
            )
            refl
      | inr escaped ↦
          let value : hex_value (hex_digit (c / 16)) * 16 + hex_value (hex_digit (c % 16)) ≡ c =
            omega (
              arith,
              hex_value-hex_digit (c / 16) (omega (arith, bytes.0)),
              hex_value-hex_digit (c % 16) (omega arith),
            ) in
          rw (url_encode, escaped, rest, value) refl
    ]
