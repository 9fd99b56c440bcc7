-- ===== src/Voice/Fields/Ahead.antt =====
-- A reader of src/voice_connection.cpp with the memory in front of it.
use mathlib.Core.List.{append_assoc}
use stoatpp.Prelude.{
  ℕ, ◌+◌, ◌-◌, ◌%◌, ◌^◌, ◌≤◌, ◌<◌, ◌≡◌, refl, sym, ap, ◌∙◌, false, some, List, ◌++◌, arith, length,
  length-append, drop, take-append_length, drop-append_length, length-drop, drop-drop, ltb,
}
use stoatpp.Text.{Text}
use stoatpp.Voice.Protobuf.{
  PbReader, varint_bytes, read_bytes, read_varint, read_string, skip_field, enter, advance,
}
use stoatpp.Voice.Protobuf.Varints.{read_bytes-varint_bytes, length-varint_bytes}

-- The memory from the offset of a reader on.
abbrev pub Ahead : PbReader → List ℕ → Type 0
Ahead r bytes = drop r.offset r.bytes ≡ bytes

abbrev pub moved : ℕ → PbReader → PbReader
moved n r = record r { offset = r.offset + n }

-- Behind what stood ahead, the rest stands ahead.
pub Ahead-moved :
    (r : PbReader) (xs ys : List ℕ) → Ahead r (xs ++ ys) → Ahead (moved (length xs) r) ys
Ahead-moved r xs ys h =
    drop-drop r.offset (length xs) r.bytes ∙ ap (drop (length xs)) h ∙ drop-append_length xs ys

pub read_varint-Ahead :
    (r : PbReader) (v : ℕ) (ys : List ℕ)
    → v < 2 ^ 64
    → Ahead r (varint_bytes 9 v ++ ys)
    → r.offset + length (varint_bytes 9 v) ≤ r.size
    → read_varint r ≡ some (v, moved (length (varint_bytes 9 v)) r)
unfolding read_varint
read_varint-Ahead r v ys fits ahead room =
    let got : read_bytes (r.size - r.offset) (varint_bytes 9 v ++ ys) 0 0
        ≡ some (v, length (varint_bytes 9 v)) =
      read_bytes-varint_bytes (r.size - r.offset) 9 v 0 0 ys (omega (arith, room))
        (omega (arith, fits)) (omega arith) (omega arith) (omega (arith, fits))
      ∙ ap (λ (t : ℕ). some (t, length (varint_bytes 9 v))) (omega arith) in
    rw (read_varint, ahead, got) refl

length-Ahead :
    (r : PbReader) (xs ys : List ℕ)
    → Ahead r (xs ++ ys)
    → 0 < length xs
    → r.offset + length xs ≤ length r.bytes
length-Ahead r xs ys ahead some_byte =
    omega (arith, length-drop r.offset r.bytes, ap length ahead, length-append xs ys, some_byte)

-- The bytes of a text with its length.
abbrev pub text_bytes : Text → List ℕ
text_bytes s = varint_bytes 9 (length s) ++ s

pub length-text_bytes :
    (s : Text) → length (text_bytes s) ≡ length (varint_bytes 9 (length s)) + length s
length-text_bytes s = length-append (varint_bytes 9 (length s)) s

text_bytes-pos : (s : Text) → 0 < length (text_bytes s)
text_bytes-pos s = omega (arith, length-text_bytes s, length-varint_bytes 9 (length s))

-- The length of a text is read, and the reader stands before the text.
length_read :
    (r : PbReader) (s : Text) (ys : List ℕ)
    → length s < 2 ^ 64
    → Ahead r (text_bytes s ++ ys)
    → r.offset + length (text_bytes s) ≤ r.size
    → read_varint r ≡ some (length s, moved (length (varint_bytes 9 (length s))) r)
length_read r s ys fits ahead room =
    read_varint-Ahead r (length s) (s ++ ys) fits
      (ahead ∙ append_assoc (varint_bytes 9 (length s)) s ys)
      (omega (arith, room, length-text_bytes s))

before_text :
    (r : PbReader) (s : Text) (ys : List ℕ)
    → Ahead r (text_bytes s ++ ys)
    → Ahead (moved (length (varint_bytes 9 (length s))) r) (s ++ ys)
before_text r s ys ahead =
    Ahead-moved r (varint_bytes 9 (length s)) (s ++ ys)
      (ahead ∙ append_assoc (varint_bytes 9 (length s)) s ys)

advance-moved :
    (r : PbReader) (m n : ℕ) → r.offset + (m + n) < 2 ^ 64 → advance n (moved m r) ≡ moved (m + n) r
unfolding advance
advance-moved r m n fits =
    let e : (r.offset + m + n) % 2 ^ 64 ≡ r.offset + (m + n) = omega (arith, fits) in
    ap (λ k. record r { offset = k }) e

text_moved :
    (r : PbReader) (s : Text)
    → r.offset + length (text_bytes s) ≤ r.size
    → r.size < 2 ^ 64
    → advance (length s) (moved (length (varint_bytes 9 (length s))) r)
      ≡ moved (length (text_bytes s)) r
text_moved r s room small =
    advance-moved r (length (varint_bytes 9 (length s))) (length s)
      (omega (arith, room, small, length-text_bytes s))
    ∙ ap (λ k. moved k r) (sym (length-text_bytes s))

pub read_string-Ahead :
    (r : PbReader) (s : Text) (ys : List ℕ)
    → Ahead r (text_bytes s ++ ys)
    → r.offset + length (text_bytes s) ≤ r.size
    → r.size < 2 ^ 64
    → read_string r ≡ some (s, moved (length (text_bytes s)) r)
unfolding read_string
read_string-Ahead r s ys ahead room small =
    let k = length (varint_bytes 9 (length s)) in
    let within : ltb r.size ((r.offset + k + length s) % 2 ^ 64) ≡ false =
      ground (arith, room, small, length-text_bytes s) in
    let held : ltb (length r.bytes) (r.offset + k + length s) ≡ false =
      ground
        (arith, length-text_bytes s, length-Ahead r (text_bytes s) ys ahead (text_bytes-pos s)) in
    rw
      (
        read_string,
        length_read r s ys (omega (arith, room, small, length-text_bytes s)) ahead room,
        within,
        held,
        before_text r s ys ahead,
        take-append_length s ys,
        text_moved r s room small,
      )
      refl

pub enter-Ahead :
    (r : PbReader) (s : Text) (ys : List ℕ)
    → Ahead r (text_bytes s ++ ys)
    → r.offset + length (text_bytes s) ≤ r.size
    → r.size < 2 ^ 64
    → enter r
      ≡ some
          (record { bytes = s ++ ys; size = length s; offset = 0 }, moved (length (text_bytes s)) r)
unfolding enter
enter-Ahead r s ys ahead room small =
    rw
      (
        enter,
        length_read r s ys (omega (arith, room, small, length-text_bytes s)) ahead room,
        before_text r s ys ahead,
        text_moved r s room small,
      )
      refl

pub skip_number-Ahead :
    (r : PbReader) (v : ℕ) (ys : List ℕ)
    → v < 2 ^ 64
    → Ahead r (varint_bytes 9 v ++ ys)
    → r.offset + length (varint_bytes 9 v) ≤ r.size
    → skip_field 0 r ≡ some (moved (length (varint_bytes 9 v)) r)
unfolding skip_field
skip_number-Ahead r v ys fits ahead room =
    rw (skip_field, read_varint-Ahead r v ys fits ahead room) refl

pub skip_text-Ahead :
    (r : PbReader) (s : Text) (ys : List ℕ)
    → Ahead r (text_bytes s ++ ys)
    → r.offset + length (text_bytes s) ≤ r.size
    → r.size < 2 ^ 64
    → skip_field 2 r ≡ some (moved (length (text_bytes s)) r)
unfolding skip_field
skip_text-Ahead r s ys ahead room small =
    rw (skip_field, length_read r s ys (omega (arith, room, small, length-text_bytes s)) ahead room)
      (ap (λ q. some q) (text_moved r s room small))
