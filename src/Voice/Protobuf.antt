-- ===== src/Voice/Protobuf.antt =====
-- `pb_writer` and `pb_reader` of src/voice_connection.cpp.
pub mod Varints
use Prim.Native.Nat.{bit_and, bit_or}
use stoatpp.Prelude.{
  ℕ, zero, suc, ◌+◌, ◌-◌, ◌*◌, ◌/◌, ◌%◌, ◌^◌, Bool, Option, none, some, List, [], ◌∷◌, ◌++◌, ltb,
  leb, ◌==◌, if◌then◌else◌, length, take, drop,
}
use stoatpp.Text.{Text}

-- The loop of `pb_writer::write_varint`; a 64-bit value needs at most ten bytes.
unfoldable pub varint_bytes : ℕ → ℕ → List ℕ
varint_bytes zero val = bit_and val 0x7F ∷ []
varint_bytes (suc fuel) val =
    let rest = varint_bytes fuel (val / 2 ^ 7) in
    if leb 0x80 val then bit_or (bit_and val 0x7F) 0x80 ∷ rest else bit_and val 0x7F ∷ []

-- `pb_writer::write_varint`, `write_key` and `write_string`, on the buffer
unfoldable pub write_varint : List ℕ → ℕ → List ℕ
unfolding varint_bytes
write_varint buffer val = buffer ++ varint_bytes 9 val

unfoldable pub write_key : List ℕ → ℕ → ℕ → List ℕ
unfolding write_varint
write_key buffer field_num wire_type = write_varint buffer (bit_or (field_num * 2 ^ 3) wire_type)

unfoldable pub write_string : List ℕ → ℕ → Text → List ℕ
unfolding write_key
write_string buffer field_num str = write_varint (write_key buffer field_num 2) (length str) ++ str

unfoldable pub write_message : List ℕ → ℕ → List ℕ → List ℕ
unfolding write_key
write_message buffer field_num msg_bytes =
    write_varint (write_key buffer field_num 2) (length msg_bytes) ++ msg_bytes

-- The loop of `pb_reader::read_varint` over the memory from the offset on, where so many bytes are left to
-- the reader's size: the value and the number of bytes read. `none`: a byte outside the memory is read, or
-- a shift is by 64 or more, which C++ does not define.
unfoldable pub read_bytes : ℕ → List ℕ → ℕ → ℕ → Option (ℕ × ℕ)
read_bytes zero bytes shift val = some (0, 0)
read_bytes (suc left) [] shift val = none
read_bytes (suc left) (byte ∷ bytes) shift val =
    let next = bit_or val (bit_and byte 0x7F * 2 ^ shift % 2 ^ 64) in
    let rest = read_bytes left bytes (shift + 7) next in
    if ltb shift 64
    then (if bit_and byte 0x80 == 0
        then some (next, 1)
        else elim rest [ none ↦ none | some (v, n) ↦ some (v, suc n) ])
    else none

-- `bytes` is the memory from `data` on, to the end of the message that was received. The size of a reader
-- of a nested message is the length that the message gives, which may reach beyond.
pub record PbReader : Type 0 where
  pub bytes : List ℕ
  pub size : ℕ
  pub offset : ℕ

abbrev pub has_more : PbReader → Bool
has_more r = ltb r.offset r.size

-- `pb_reader::read_varint`
unfoldable pub read_varint : PbReader → Option (ℕ × PbReader)
unfolding read_bytes
read_varint r = elim (read_bytes (r.size - r.offset) (drop r.offset r.bytes) 0 0) [
  | none ↦ none
  | some (v, n) ↦ some (v, record r { offset = r.offset + n })
]

-- `offset += n`, modulo 2^64
unfoldable pub advance : ℕ → PbReader → PbReader
advance n r = record r { offset = (r.offset + n) % 2 ^ 64 }

-- `pb_reader::read_string`: the sum with the length wraps at 2^64. `none`: bytes outside the memory are
-- read.
unfoldable pub read_string : PbReader → Option (Text × PbReader)
unfolding read_varint advance
read_string r = elim (read_varint r) [
  | none ↦ none
  | some (len, after) ↦
      if ltb after.size ((after.offset + len) % 2 ^ 64)
      then some ([], after)
      else if ltb (length after.bytes) (after.offset + len)
      then none
      else some (take len (drop after.offset after.bytes), advance len after)
]

-- `pb_reader::skip_field`
unfoldable pub skip_field : ℕ → PbReader → Option PbReader
unfolding read_varint advance
skip_field wire_type r =
    let number = read_varint r in
    if wire_type == 0
    then elim number as (λ o. Option PbReader) [ none ↦ none | some (v, after) ↦ some after ]
    else if wire_type == 2
    then elim number as (λ o. Option PbReader) [
      | none ↦ none
      | some (len, after) ↦ some (advance len after)
    ]
    else if wire_type == 1
    then some (advance 8 r)
    else if wire_type == 5
    then some (advance 4 r)
    else some r

-- `read_varint` of a length, a reader over the message behind it, and the reader moved behind that.
unfoldable pub enter : PbReader → Option (PbReader × PbReader)
unfolding read_varint advance
enter r = elim (read_varint r) [
  | none ↦ none
  | some (len, after) ↦
      some (
        record { bytes = drop after.offset after.bytes; size = len; offset = 0 },
        advance len after,
      )
]
