-- ===== src/Voice/Fields/Written.antt =====
-- A message that is written field by field, as `pb_writer` of src/voice_connection.cpp does, is read field by
-- field.
use Prim.Native.Nat.{bit_or}
use mathlib.Core.List.{append_assoc, append-nil}
use stoatpp.Prelude.{
  ℕ, zero, suc, ◌+◌, ◌*◌, ◌^◌, ◌≤◌, ◌<◌, ◌≡◌, refl, sym, ap, ◌∙◌, true, false, List, [], ◌∷◌, ◌++◌,
  arith, length, length-append, Every,
}
use stoatpp.Text.{Text}
use stoatpp.Bits.{bit_or_comm, bit_or-disjoint}
use stoatpp.Voice.Protobuf.{PbReader, varint_bytes, write_varint, write_key, write_string, has_more}
use stoatpp.Voice.Protobuf.Varints.{length-varint_bytes}
use stoatpp.Voice.Requests.{write_number}
use stoatpp.Voice.Fields.{parsed, Step, read_fields, field_of, wire_of}
use stoatpp.Voice.Fields.Ahead.{Ahead, moved, Ahead-moved, read_varint-Ahead, text_bytes}

-- A field: its number, with an integer, or with a text or a message.
pub data Field : Type 0 where
  number : ℕ → ℕ → Field
  text : ℕ → Text → Field

abbrev pub number_of : Field → ℕ
number_of (number n v) = n
number_of (text n s) = n

abbrev pub wire_type : Field → ℕ
wire_type (number n v) = 0
wire_type (text n s) = 2

abbrev pub payload : Field → List ℕ
payload (number n v) = varint_bytes 9 v
payload (text n s) = text_bytes s

abbrev pub key_bytes : Field → List ℕ
key_bytes f = varint_bytes 9 (bit_or (number_of f * 2 ^ 3) (wire_type f))

abbrev pub fields_bytes : List Field → List ℕ
fields_bytes [] = []
fields_bytes (f ∷ fs) = key_bytes f ++ (payload f ++ fields_bytes fs)

-- What the calls of the writer append.
abbrev pub write_field : List ℕ → Field → List ℕ
write_field buffer (number n v) = write_number buffer n v
write_field buffer (text n s) = write_string buffer n s

abbrev pub write_fields : List ℕ → List Field → List ℕ
write_fields buffer [] = buffer
write_fields buffer (f ∷ fs) = write_fields (write_field buffer f) fs

pub write_field-bytes :
    (buffer : List ℕ) (f : Field) → write_field buffer f ≡ buffer ++ (key_bytes f ++ payload f)
unfolding write_number write_string write_key write_varint
write_field-bytes buffer (number n v) =
    append_assoc buffer (key_bytes (number n v)) (varint_bytes 9 v)
write_field-bytes buffer (text n s) =
    append_assoc (buffer ++ key_bytes (text n s)) (varint_bytes 9 (length s)) s
    ∙ append_assoc buffer (key_bytes (text n s)) (text_bytes s)

pub write_fields-bytes :
    (buffer : List ℕ) (fs : List Field) → write_fields buffer fs ≡ buffer ++ fields_bytes fs
write_fields-bytes buffer [] = sym (append-nil buffer)
write_fields-bytes buffer (f ∷ fs) =
    write_fields-bytes (write_field buffer f) fs
    ∙ ap (λ b. b ++ fields_bytes fs) (write_field-bytes buffer f)
    ∙ append_assoc buffer (key_bytes f ++ payload f) (fields_bytes fs)
    ∙ ap (λ b. buffer ++ b) (append_assoc (key_bytes f) (payload f) (fields_bytes fs))

-- Field numbers of protobuf are below 2^29, and integers are of 64 bits.
abbrev pub Fits : Field → Type 0
Fits (number n v) = (n < 2 ^ 29) × (v < 2 ^ 64)
Fits (text n s) = n < 2 ^ 29

number-lt : (f : Field) → Fits f → number_of f < 2 ^ 29
number-lt (number n v) h = h.0
number-lt (text n s) h = h

wire-lt : (f : Field) → wire_type f < 2 ^ 3
wire-lt (number n v) = omega arith
wire-lt (text n s) = omega arith

key_sum : (n w : ℕ) → w < 2 ^ 3 → bit_or (n * 2 ^ 3) w ≡ w + n * 2 ^ 3
key_sum n w h = bit_or_comm (n * 2 ^ 3) w ∙ bit_or-disjoint 3 w n h

key_of_number : (n w : ℕ) → n < 2 ^ 29 → w < 2 ^ 3 → field_of (bit_or (n * 2 ^ 3) w) ≡ n
key_of_number n w hn hw = rw (key_sum n w hw) (omega (arith, hn, hw))

key_of_wire : (n w : ℕ) → w < 2 ^ 3 → wire_of (bit_or (n * 2 ^ 3) w) ≡ w
key_of_wire n w hw = rw (key_sum n w hw) (omega (arith, hw))

key_small : (n w : ℕ) → n < 2 ^ 29 → w < 2 ^ 3 → bit_or (n * 2 ^ 3) w < 2 ^ 64
key_small n w hn hw = rw (key_sum n w hw) (omega (arith, hn, hw))

-- A step reads a field, whatever stands behind it, and changes the value by the field.
abbrev pub Handles : {A : Type 0} → Step A → (Field → A → A) → Field → Type 0
Handles {A} step change f =
    (a : A) (r : PbReader) (ys : List ℕ)
    → Fits f
    → Ahead r (payload f ++ ys)
    → r.offset + length (payload f) ≤ r.size
    → r.size < 2 ^ 64
    → step (number_of f) (wire_type f) a r ≡ parsed (change f a, moved (length (payload f)) r)

abbrev pub changed : {A : Type 0} → (Field → A → A) → A → List Field → A
changed change a [] = a
changed change a (f ∷ fs) = changed change (change f a) fs

module _ {A : Type 0} (step : Step A) (change : Field → A → A) where
  round :
      (f : Field) (fuel : ℕ) (a : A) (r : PbReader) (ys : List ℕ)
      → Handles step change f
      → Fits f
      → Ahead r (key_bytes f ++ (payload f ++ ys))
      → r.offset + (length (key_bytes f) + length (payload f)) ≤ r.size
      → r.size < 2 ^ 64
      → read_fields step (suc fuel) a r
        ≡ read_fields step fuel
            (change f a)
            (moved (length (payload f)) (moved (length (key_bytes f)) r))
  unfolding read_fields
  round f fuel a r ys handles fits ahead room small =
      let more : has_more r ≡ true =
        ground (arith, room, length-varint_bytes 9 (bit_or (number_of f * 2 ^ 3) (wire_type f))) in
      rw
        (
          read_fields,
          more,
          read_varint-Ahead r (bit_or (number_of f * 2 ^ 3) (wire_type f)) (payload f ++ ys)
              (key_small (number_of f) (wire_type f) (number-lt f fits) (wire-lt f)) ahead
              (omega (arith, room)),
          key_of_number (number_of f) (wire_type f) (number-lt f fits) (wire-lt f),
          key_of_wire (number_of f) (wire_type f) (wire-lt f),
          handles a (moved (length (key_bytes f)) r) ys fits
              (Ahead-moved r (key_bytes f) (payload f ++ ys) ahead) (omega (arith, room)) small,
        )
        refl

  -- The fields of a message are read one by one, and each changes the value, to the end of the message.
  pub read_fields_written :
      (fs : List Field) (fuel : ℕ) (a : A) (r : PbReader) (ys : List ℕ)
      → Every (Handles step change) fs
      → Every Fits fs
      → length fs < fuel
      → Ahead r (fields_bytes fs ++ ys)
      → r.size ≡ r.offset + length (fields_bytes fs)
      → r.size < 2 ^ 64
      → read_fields step fuel a r ≡ parsed (changed change a fs)
  unfolding read_fields
  read_fields_written fs zero a r ys handles fits enough ahead whole small =
      absurd (omega (arith, enough))
  read_fields_written [] (suc fuel) a r ys handles fits enough ahead whole small =
      let over : has_more r ≡ false = ground (arith, whole) in rw (read_fields, over) refl
  read_fields_written (f ∷ fs) (suc fuel) a r ys handles fits enough ahead whole small =
      let key = key_bytes f in
      let rest = fields_bytes fs in
      let split : Ahead r (key ++ (payload f ++ (rest ++ ys))) =
        ahead
        ∙ append_assoc key (payload f ++ rest) ys
        ∙ ap (λ b. key ++ b) (append_assoc (payload f) rest ys) in
      let sizes : r.size ≡ r.offset + (length key + (length (payload f) + length rest)) =
        omega
          (arith, whole, length-append key (payload f ++ rest), length-append (payload f) rest) in
      let behind : Ahead (moved (length (payload f)) (moved (length key) r)) (rest ++ ys) =
        Ahead-moved (moved (length key) r) (payload f) (rest ++ ys)
          (Ahead-moved r key (payload f ++ (rest ++ ys)) split) in
      round f fuel a r (rest ++ ys) handles.0 fits.0 split (omega (arith, sizes)) small
      ∙ read_fields_written fs fuel (change f a) (moved (length (payload f)) (moved (length key) r))
          ys handles.1 fits.1 (omega (arith, enough)) behind (omega (arith, sizes)) small
