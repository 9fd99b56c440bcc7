-- ===== src/Bits.antt =====
-- Bitwise operations on unsigned patterns at variables: the digit laws of `bit_and` and `bit_or`, the
-- value of each bit of a result, and the form that `|` takes where the operands do not overlap.
use Prim.Native.Nat.{
  ℕ, zero, suc, ◌+◌, ◌*◌, ◌/◌, ◌%◌, ◌^◌, ◌≤◌, ◌<◌, min, max, bit_and, bit_or, digits,
  bit_and-bitwise, bit_or-bitwise,
}
use native.Mathlib.Nat.{pow-suc}
use stoatpp.Prelude.{◌≡◌, refl, sym, ◌∙◌, ap, ◌↔◌, inl, inr, arith, tests, leb, Bool-cases}

module _ (rest : ℕ → ℕ) (digit : ℕ → ℕ → ℕ) where
  -- A unit of fuel more than the first number changes nothing.
  one_more : (n x y : ℕ) → x ≤ n → digits rest digit (suc n) x y ≡ digits rest digit n x y
  one_more zero zero y enough = refl
  one_more zero (suc x) y enough = absurd (omega arith)
  one_more (suc n) zero y enough = refl
  one_more (suc n) (suc x) y enough = omega (arith, one_more n (suc x / 2) (y / 2) (omega arith))

  spare_fuel : (m n x y : ℕ) → x ≤ n → n ≤ m → digits rest digit m x y ≡ digits rest digit n x y
  spare_fuel zero n x y enough more =
      let e : n ≡ 0 = omega arith in ap (λ k. digits rest digit k x y) (sym e)
  spare_fuel (suc m) n x y enough more = elim (Bool-cases (leb n m)) [
    | inl below ↦
        one_more m x y (omega (tests, below)) ∙ spare_fuel m n x y enough (omega (tests, below))
    | inr top ↦ let e : n ≡ suc m = ground arith in ap (λ k. digits rest digit k x y) (sym e)
  ]

zero-bit_and : (b : ℕ) → bit_and 0 b ≡ 0
zero-bit_and b = bit_and-bitwise 0 b

zero-bit_or : (b : ℕ) → bit_or 0 b ≡ b
zero-bit_or b = bit_or-bitwise 0 b

bit_and-digit : (a b : ℕ) → bit_and a b ≡ bit_and (a / 2) (b / 2) * 2 + min (a % 2) (b % 2)
bit_and-digit zero b = omega (arith, zero-bit_and b, zero-bit_and (b / 2))
bit_and-digit (suc a) b = omega (
  arith,
  bit_and-bitwise (suc a) b,
  bit_and-bitwise (suc a / 2) (b / 2),
  spare_fuel (λ x. zero) min a (suc a / 2) (suc a / 2) (b / 2) (omega arith) (omega arith),
)

bit_or-digit : (a b : ℕ) → bit_or a b ≡ bit_or (a / 2) (b / 2) * 2 + max (a % 2) (b % 2)
bit_or-digit zero b = omega (arith, zero-bit_or b, zero-bit_or (b / 2))
bit_or-digit (suc a) b = omega (
  arith,
  bit_or-bitwise (suc a) b,
  bit_or-bitwise (suc a / 2) (b / 2),
  spare_fuel (λ x. x) max a (suc a / 2) (suc a / 2) (b / 2) (omega arith) (omega arith),
)

-- Bit `i` of a pattern, 0 or 1.
abbrev pub bit : ℕ → ℕ → ℕ
bit zero x = x % 2
bit (suc i) x = bit i (x / 2)

bit_and-half : (a b : ℕ) → bit_and a b / 2 ≡ bit_and (a / 2) (b / 2)
bit_and-half a b = omega (arith, bit_and-digit a b)

bit_or-half : (a b : ℕ) → bit_or a b / 2 ≡ bit_or (a / 2) (b / 2)
bit_or-half a b = omega (arith, bit_or-digit a b)

pub bit-bit_and : (i a b : ℕ) → bit i (bit_and a b) ≡ min (bit i a) (bit i b)
bit-bit_and zero a b = omega (arith, bit_and-digit a b)
bit-bit_and (suc i) a b = rw (bit_and-half a b) (bit-bit_and i (a / 2) (b / 2))

pub bit-bit_or : (i a b : ℕ) → bit i (bit_or a b) ≡ max (bit i a) (bit i b)
bit-bit_or zero a b = omega (arith, bit_or-digit a b)
bit-bit_or (suc i) a b = rw (bit_or-half a b) (bit-bit_or i (a / 2) (b / 2))

pub bit-zero : (i : ℕ) → bit i 0 ≡ 0
bit-zero zero = refl
bit-zero (suc i) = bit-zero i

pub bit-le-one : (i x : ℕ) → bit i x ≤ 1
bit-le-one zero x = omega arith
bit-le-one (suc i) x = bit-le-one i (x / 2)

eq_of_bits_below : (n a b : ℕ) → a ≤ n → b ≤ n → ((i : ℕ) → bit i a ≡ bit i b) → a ≡ b
eq_of_bits_below zero a b p q h = omega arith
eq_of_bits_below (suc n) a b p q h =
    omega
      (arith, h 0, eq_of_bits_below n (a / 2) (b / 2) (omega arith) (omega arith) (λ i. h (suc i)))

-- Patterns with the same bits are the same.
eq_of_bits : (a b : ℕ) → ((i : ℕ) → bit i a ≡ bit i b) → a ≡ b
eq_of_bits a b h = eq_of_bits_below (a + b) a b (omega arith) (omega arith) h

pub bit_or_comm : (a b : ℕ) → bit_or a b ≡ bit_or b a
bit_or_comm a b = eq_of_bits _ _ (λ i. omega (arith, bit-bit_or i a b, bit-bit_or i b a))

-- `(a & m) == m` exactly when `a` has every bit of `m`.
pub bit_and-eq_iff : (a m : ℕ) → (bit_and a m ≡ m) ↔ ((i : ℕ) → bit i m ≡ 1 → bit i a ≡ 1)
bit_and-eq_iff a m = (
  λ e i h. omega (arith, bit-bit_and i a m, bit-le-one i a, same e i),
  λ h. eq_of_bits _ m (λ i. pointwise h i),
)
  where
    same : bit_and a m ≡ m → (i : ℕ) → bit i (bit_and a m) ≡ bit i m
    same e i = rw e

    pointwise : ((i : ℕ) → bit i m ≡ 1 → bit i a ≡ 1) → (i : ℕ) → bit i (bit_and a m) ≡ bit i m
    pointwise h i = grind (arith, bit-bit_and i a m, bit-le-one i a, bit-le-one i m, h i)

-- `a | (b << s)` adds where `a` has no bit at `s` or above.
pub bit_or-disjoint : (s a b : ℕ) → a < 2 ^ s → bit_or a (b * 2 ^ s) ≡ a + b * 2 ^ s
bit_or-disjoint zero a b h =
    let e : a ≡ 0 = omega arith in rw e (omega (arith, zero-bit_or (b * 1)))
bit_or-disjoint (suc s) a b h = omega (
  arith,
  bit_or-digit a (b * 2 ^ suc s),
  half,
  bit_or-disjoint s (a / 2) b (omega (arith, pow-suc 2 s)),
  pow-suc 2 s,
  whole,
)
  where
    whole : b * 2 ^ suc s ≡ b * 2 ^ s * 2
    whole = omega (arith, ap (λ (t : ℕ). b * t) (pow-suc 2 s))

    quotient : b * 2 ^ suc s / 2 ≡ b * 2 ^ s
    quotient = omega (arith, whole)

    half : bit_or (a / 2) (b * 2 ^ suc s / 2) ≡ bit_or (a / 2) (b * 2 ^ s)
    half = rw quotient

bit_and-none : (x : ℕ) → bit_and x 0 ≡ 0
bit_and-none x = eq_of_bits _ 0 (λ i. omega (arith, bit-bit_and i x 0, bit-zero i))

-- The lower bits, one more at a time.
bit_and-one : (x : ℕ) → bit_and x 1 ≡ x % 2
bit_and-one x = omega (arith, bit_and-digit x 1, bit_and-none (x / 2))

two_bits : (x : ℕ) → bit_and x 3 ≡ x % 4
two_bits x = omega (arith, bit_and-digit x 3, bit_and-one (x / 2))

three_bits : (x : ℕ) → bit_and x 7 ≡ x % 8
three_bits x = omega (arith, bit_and-digit x 7, two_bits (x / 2))

four_bits : (x : ℕ) → bit_and x 15 ≡ x % 16
four_bits x = omega (arith, bit_and-digit x 15, three_bits (x / 2))

five_bits : (x : ℕ) → bit_and x 31 ≡ x % 32
five_bits x = omega (arith, bit_and-digit x 31, four_bits (x / 2))

six_bits : (x : ℕ) → bit_and x 63 ≡ x % 64
six_bits x = omega (arith, bit_and-digit x 63, five_bits (x / 2))

pub low_bits : (x : ℕ) → bit_and x 127 ≡ x % 128
low_bits x = omega (arith, bit_and-digit x 127, six_bits (x / 2))

bit_and-double : (x m : ℕ) → bit_and x (m * 2) ≡ bit_and (x / 2) m * 2
bit_and-double x m =
    let half : m * 2 / 2 ≡ m = omega arith in
    let even : m * 2 % 2 ≡ 0 = omega arith in
    let digit = bit_and-digit x (m * 2) in omega (arith, (rw (half, even) at digit))

-- One bit, one higher at a time.
second_bit : (x : ℕ) → bit_and x 2 ≡ x / 2 % 2 * 2
second_bit x = omega (arith, bit_and-double x 1, bit_and-one (x / 2))

third_bit : (x : ℕ) → bit_and x 4 ≡ x / 4 % 2 * 4
third_bit x = omega (arith, bit_and-double x 2, second_bit (x / 2))

fourth_bit : (x : ℕ) → bit_and x 8 ≡ x / 8 % 2 * 8
fourth_bit x = omega (arith, bit_and-double x 4, third_bit (x / 2))

fifth_bit : (x : ℕ) → bit_and x 16 ≡ x / 16 % 2 * 16
fifth_bit x = omega (arith, bit_and-double x 8, fourth_bit (x / 2))

sixth_bit : (x : ℕ) → bit_and x 32 ≡ x / 32 % 2 * 32
sixth_bit x = omega (arith, bit_and-double x 16, fifth_bit (x / 2))

seventh_bit : (x : ℕ) → bit_and x 64 ≡ x / 64 % 2 * 64
seventh_bit x = omega (arith, bit_and-double x 32, sixth_bit (x / 2))

pub top_bit : (x : ℕ) → bit_and x 128 ≡ x / 128 % 2 * 128
top_bit x = omega (arith, bit_and-double x 64, seventh_bit (x / 2))
