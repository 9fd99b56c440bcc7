-- ===== src/Rest/Numerals/RoundTrip.antt =====
-- `std::stoi` reads what `std::to_string` prints, as src/rest.cpp and src/voice_connection.cpp use them.
use stoatpp.Prelude.{
  ℕ, zero, suc, ◌+◌, ◌-◌, ◌*◌, ◌/◌, ◌%◌, ◌^◌, ◌≤◌, ◌<◌, ◌≡◌, refl, ap, ◌∙◌, true, false, some, [],
  ◌∷◌, ◌++◌, ltb, ◌==◌, arith, length, length-append, Every, Every-append, Bool-cases, inl, inr,
  lt→ltb,
}
use stoatpp.Prelude.Int.{pos}
use stoatpp.Text.{Text}
use stoatpp.Commands.Parse.{is_space}
use stoatpp.Rest.Numerals.{decimal_digits, to_string, is_digit, digits_value, in_range, stoi}

abbrev pub IsDigit : ℕ → Type 0
IsDigit c = (b'0' ≤ c) × (c ≤ b'9')

is_digit-true : (c : ℕ) → IsDigit c → is_digit c ≡ true
is_digit-true c (low, high) = ground (arith, low, high)

pub decimal_digits-IsDigit : (fuel n : ℕ) → Every IsDigit (decimal_digits fuel n)
decimal_digits-IsDigit zero n = ((omega arith, omega arith), tt)
decimal_digits-IsDigit (suc fuel) n =
    elim (Bool-cases (ltb n 10)) as (λ _. Every IsDigit (decimal_digits (suc fuel) n)) [
      | inl e ↦
          let small : n < 10 = ground (arith, e) in rw e ((omega arith, omega (arith, small)), tt)
      | inr e ↦ rw e (
          Every-append IsDigit (decimal_digits fuel (n / 10)) ((b'0' + n % 10) ∷ [])
            (decimal_digits-IsDigit fuel (n / 10)) ((omega arith, omega arith), tt))
    ]

digits_value_snoc :
    (a : ℕ) (xs : Text) (d : ℕ)
    → Every IsDigit xs
    → IsDigit d
    → digits_value a (xs ++ d ∷ []) ≡ digits_value a xs * 10 + (d - b'0')
digits_value_snoc a [] d all h = rw (is_digit-true d h) refl
digits_value_snoc a (x ∷ xs) d all h =
    rw (is_digit-true x all.0) (digits_value_snoc (a * 10 + (x - b'0')) xs d all.1 h)

pub digits_value-decimal_digits :
    (fuel n : ℕ) → n ≤ fuel → digits_value 0 (decimal_digits fuel n) ≡ n
digits_value-decimal_digits zero n h =
    rw (is_digit-true (b'0' + n % 10) (omega arith, omega arith)) (omega (arith, h))
digits_value-decimal_digits (suc fuel) n h =
    elim (Bool-cases (ltb n 10)) as (λ _. digits_value 0 (decimal_digits (suc fuel) n) ≡ n) [
      | inl e ↦
          let small : n < 10 = ground (arith, e) in
          rw (e, is_digit-true (b'0' + n) (omega arith, omega (arith, small))) (omega arith)
      | inr e ↦
          let smaller : n / 10 ≤ fuel = ground (arith, e, h) in
          rw
            (
              e,
              digits_value_snoc 0 (decimal_digits fuel (n / 10)) (b'0' + n % 10)
                  (decimal_digits-IsDigit fuel (n / 10)) (omega arith, omega arith),
              digits_value-decimal_digits fuel (n / 10) smaller,
            )
            (omega arith)
    ]

length-decimal_digits : (fuel n : ℕ) → 0 < length (decimal_digits fuel n)
length-decimal_digits zero n = omega arith
length-decimal_digits (suc fuel) n =
    elim (Bool-cases (ltb n 10)) as (λ _. 0 < length (decimal_digits (suc fuel) n)) [
      | inl e ↦ rw e (omega arith)
      | inr e ↦
          rw e (omega (arith, length-append (decimal_digits fuel (n / 10)) ((b'0' + n % 10) ∷ [])))
    ]

in_range_fits : (n : ℕ) → n < 2 ^ 31 → in_range false (some n) ≡ some (pos n)
in_range_fits n small = rw (lt→ltb n (2 ^ 31) small) refl

stoi_digits :
    (xs : Text)
    → Every IsDigit xs
    → 0 < length xs
    → digits_value 0 xs < 2 ^ 31
    → stoi xs ≡ some (pos (digits_value 0 xs))
unfolding stoi
stoi_digits [] all some_digit small = absurd (omega (arith, some_digit))
stoi_digits (c ∷ xs) all some_digit small =
    let space : is_space c ≡ false = ground (arith, all.0.0, all.0.1) in
    let minus : (c == b'-') ≡ false = ground (arith, all.0.0) in
    let plus : (c == b'+') ≡ false = ground (arith, all.0.0) in
    let digit = is_digit-true c all.0 in
    let value : digits_value 0 (c ∷ xs) ≡ digits_value (0 * 10 + (c - b'0')) xs = rw digit refl in
    rw (stoi, space, minus, plus, digit)
      (in_range_fits (digits_value (0 * 10 + (c - b'0')) xs) (omega (arith, value, small)))

-- `std::stoi` gives back a number below 2^31 from what `std::to_string` prints of it.
pub stoi-to_string : (n : ℕ) → n < 2 ^ 31 → stoi (to_string (pos n)) ≡ some (pos n)
unfolding to_string
stoi-to_string n small =
    let value = digits_value-decimal_digits n n (omega arith) in
    stoi_digits (decimal_digits n n) (decimal_digits-IsDigit n n) (length-decimal_digits n n)
      (omega (arith, value, small))
    ∙ ap (λ k. some (pos k)) value
