-- ===== src/Voice/Protobuf/Varints.antt =====
-- What `pb_writer` writes, `pb_reader` of src/voice_connection.cpp reads.
use Prim.Native.Nat.{bit_and, bit_or}
use mathlib.Core.List.{append_assoc}
use native.Mathlib.Nat.{add-mul, mul_assoc, mul_comm, mul-le-mul_right, pow-suc, pow-le-pow_right}
use stoatpp.Prelude.{
  ℕ, zero, suc, ◌+◌, ◌*◌, ◌/◌, ◌%◌, ◌^◌, ◌≤◌, ◌<◌, ◌≡◌, refl, ap, ◌∙◌, ◌-◌, true, some, List, ◌∷◌,
  ◌++◌, arith, leb, leb→le, lt→ltb, length, length-append, Bool-cases, inl, inr, drop,
  drop-append_length,
}
use stoatpp.Bits.{bit_or-disjoint, low_bits, top_bit}
use stoatpp.Voice.Protobuf.{varint_bytes, write_varint, read_bytes, read_varint}

-- One byte is added above the bits that are read.
next-value :
    (b shift val : ℕ)
    → val < 2 ^ shift
    → b % 128 * 2 ^ shift < 2 ^ 64
    → bit_or val (bit_and b 127 * 2 ^ shift % 2 ^ 64) ≡ val + b % 128 * 2 ^ shift
next-value b shift val below fits =
    let whole : b % 128 * 2 ^ shift % 2 ^ 64 ≡ b % 128 * 2 ^ shift = omega (arith, fits) in
    rw (low_bits b, whole) (bit_or-disjoint shift val (b % 128) below)

split_product : (v p : ℕ) → v * p ≡ v % 128 * p + v / 128 * (p * 128)
split_product v p =
    let parts : v ≡ v % 128 + v / 128 * 128 = omega arith in
    ap (λ (w : ℕ). w * p) parts
    ∙ add-mul (v % 128) (v / 128 * 128) p
    ∙ ap (λ (t : ℕ). v % 128 * p + t)
        (mul_assoc (v / 128) 128 p ∙ ap (λ (t : ℕ). v / 128 * t) (mul_comm 128 p))

product_le : (a b p : ℕ) → a ≤ b → a * p ≤ b * p
product_le a b p h = mul-le-mul_right p h

doubled : (s n : ℕ) → 2 ^ (s + suc n) ≡ 2 ^ (s + n) * 2
doubled s n =
    let e : s + suc n ≡ suc (s + n) = omega arith in ap (λ (t : ℕ). 2 ^ t) e ∙ pow-suc 2 (s + n)

same_power : (s : ℕ) → 2 ^ (s + 0) ≡ 2 ^ s
same_power s = let e : s + 0 ≡ s = omega arith in ap (λ (t : ℕ). 2 ^ t) e

seven_more : (s : ℕ) → 2 ^ (s + 7) ≡ 2 ^ s * 128
seven_more s = omega (
  arith,
  same_power s,
  doubled s 0,
  doubled s 1,
  doubled s 2,
  doubled s 3,
  doubled s 4,
  doubled s 5,
  doubled s 6,
)

still_shallow : (s : ℕ) → 2 ^ s * 128 < 2 ^ 64 → s + 7 < 64
still_shallow s fits = elim (Bool-cases (leb 64 (s + 7))) [
  | inr less ↦ ground (arith, less)
  | inl deep ↦
      let far : 2 ^ 64 ≤ 2 ^ (s + 7) = pow-le-pow_right (omega arith) (leb→le 64 (s + 7) deep) in
      absurd (omega (arith, far, seven_more s, fits))
]

low_byte : (v : ℕ) → v < 128 → v % 128 ≡ v
low_byte v h = omega (arith, h)

-- The last byte of a value is read back.
last-byte :
    (left v shift val : ℕ) (rest : List ℕ)
    → v < 128
    → shift < 64
    → val < 2 ^ shift
    → v * 2 ^ shift < 2 ^ 64
    → read_bytes (suc left) (bit_and v 127 ∷ rest) shift val ≡ some (val + v * 2 ^ shift, 1)
unfolding read_bytes
last-byte left v shift val rest small shallow below fits =
    let low : bit_and v 127 ≡ v = omega (arith, low_bits v, small) in
    let marker : bit_and v 128 ≡ 0 = omega (arith, top_bit v, small) in
    let byte : v % 128 ≡ v = omega (arith, small) in
    let next = next-value v shift val below (rw byte fits) in
    rw (read_bytes, low, lt→ltb shift 64 shallow, marker, next, byte) refl

-- A byte with the continuation bit is read, and reading goes on.
inner-byte :
    (left v shift val : ℕ) (rest : List ℕ) (value count : ℕ)
    → shift < 64
    → val < 2 ^ shift
    → v % 128 * 2 ^ shift < 2 ^ 64
    → read_bytes left rest (shift + 7) (val + v % 128 * 2 ^ shift) ≡ some (value, count)
    → read_bytes (suc left) (bit_or (bit_and v 127) 128 ∷ rest) shift val ≡ some (value, suc count)
unfolding read_bytes
inner-byte left v shift val rest value count shallow below fits on =
    let small : v % 128 < 2 ^ 7 = omega arith in
    let joined : bit_or (bit_and v 127) 128 ≡ v % 128 + 128 =
      rw (low_bits v) (bit_or-disjoint 7 (v % 128) 1 small) in
    let low : (v % 128 + 128) % 128 ≡ v % 128 = omega arith in
    let marker : bit_and (v % 128 + 128) 128 ≡ 128 = omega (arith, top_bit (v % 128 + 128)) in
    let next = next-value (v % 128 + 128) shift val below (rw low fits) in
    rw (joined, read_bytes, lt→ltb shift 64 shallow, marker, next, low, on) refl

fewer_bits : (fuel v : ℕ) → v < 2 ^ (7 * suc fuel + 7) → v / 128 < 2 ^ (7 * fuel + 7)
fewer_bits fuel v small =
    let e : 7 * suc fuel + 7 ≡ 7 * fuel + 7 + 7 = omega arith in
    let power : 2 ^ (7 * suc fuel + 7) ≡ 2 ^ (7 * fuel + 7) * 128 =
      ap (λ (t : ℕ). 2 ^ t) e ∙ seven_more (7 * fuel + 7) in
    omega (arith, power, small)

shorter :
    (left fuel v : ℕ)
    → leb 128 v ≡ true
    → length (varint_bytes (suc fuel) v) ≤ suc left
    → length (varint_bytes fuel (v / 128)) ≤ left
unfolding varint_bytes
shorter left fuel v more room = ground arith

pub length-varint_bytes : (fuel v : ℕ) → 0 < length (varint_bytes fuel v)
unfolding varint_bytes
length-varint_bytes zero v = omega arith
length-varint_bytes (suc fuel) v = ground arith

pub read_bytes-varint_bytes :
    (left fuel v shift val : ℕ) (rest : List ℕ)
    → length (varint_bytes fuel v) ≤ left
    → v < 2 ^ (7 * fuel + 7)
    → shift < 64
    → val < 2 ^ shift
    → v * 2 ^ shift < 2 ^ 64
    → read_bytes left (varint_bytes fuel v ++ rest) shift val
      ≡ some (val + v * 2 ^ shift, length (varint_bytes fuel v))
unfolding varint_bytes
read_bytes-varint_bytes zero fuel v shift val rest room small shallow below fits =
    absurd (omega (arith, room, length-varint_bytes fuel v))
read_bytes-varint_bytes (suc left) zero v shift val rest room small shallow below fits =
    last-byte left v shift val rest small shallow below fits
read_bytes-varint_bytes (suc left) (suc fuel) v shift val rest room small shallow below fits =
    elim (Bool-cases (leb 128 v)) [
      | inr last ↦
          rw (varint_bytes, last)
            (last-byte left v shift val rest (ground (arith, last)) shallow below fits)
      | inl more ↦
          let at_least : 128 ≤ v = leb→le 128 v more in
          let split = split_product v (2 ^ shift) in
          let seven = seven_more shift in
          let bound = product_le 128 v (2 ^ shift) at_least in
          let low = product_le (v % 128) 127 (2 ^ shift) (omega arith) in
          let again =
            read_bytes-varint_bytes left fuel (v / 128) (shift + 7) (val + v % 128 * 2 ^ shift) rest
              (shorter left fuel v more room) (fewer_bits fuel v small)
              (still_shallow shift (omega (arith, bound, fits))) (omega (arith, seven, low, below))
              (rw seven (omega (arith, split, fits))) in
          let sum : val + v % 128 * 2 ^ shift + v / 128 * 2 ^ (shift + 7) ≡ val + v * 2 ^ shift =
            rw seven (omega (arith, split)) in
          rw (varint_bytes, more)
            (inner-byte left v shift val (varint_bytes fuel (v / 128) ++ rest) (val + v * 2 ^ shift)
              (length (varint_bytes fuel (v / 128))) shallow below (omega (arith, split, fits))
              (rw (← sum) again))
    ]

-- A 64-bit value that is written to a buffer is read back from its place, whatever is written after it, and
-- the reader then stands behind it, where its size covers the value.
pub read_varint-write_varint :
    (buffer rest : List ℕ) (v size : ℕ)
    → v < 2 ^ 64
    → length (write_varint buffer v) ≤ size
    → read_varint
        (record { bytes = write_varint buffer v ++ rest; size = size; offset = length buffer })
      ≡ some (
        v,
        record {
          bytes = write_varint buffer v ++ rest;
          size = size;
          offset = length (write_varint buffer v);
        },
      )
unfolding read_varint write_varint
read_varint-write_varint buffer rest v size fits room =
    let place : drop (length buffer) ((buffer ++ varint_bytes 9 v) ++ rest)
        ≡ varint_bytes 9 v ++ rest =
      ap (drop (length buffer)) (append_assoc buffer (varint_bytes 9 v) rest)
      ∙ drop-append_length buffer (varint_bytes 9 v ++ rest) in
    let wide : length (varint_bytes 9 v) ≤ size - length buffer =
      omega (arith, room, length-append buffer (varint_bytes 9 v)) in
    let got : read_bytes (size - length buffer) (varint_bytes 9 v ++ rest) 0 0
        ≡ some (v, length (varint_bytes 9 v)) =
      read_bytes-varint_bytes (size - length buffer) 9 v 0 0 rest wide (omega (arith, fits))
        (omega arith) (omega arith) (omega (arith, fits))
      ∙ ap (λ (t : ℕ). some (t, length (varint_bytes 9 v))) (omega arith) in
    rw (read_varint, place, got, length-append buffer (varint_bytes 9 v)) refl
