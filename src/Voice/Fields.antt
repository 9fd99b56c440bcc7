-- ===== src/Voice/Fields.antt =====
-- The loop over the fields of a message, which every reader of src/voice_connection.cpp has.
pub mod Ahead
pub mod Holds
pub mod Written
use stoatpp.Prelude.{ℕ, zero, suc, ◌+◌, ◌/◌, ◌%◌, ◌^◌, Option, none, some, if◌then◌else◌}
use stoatpp.Text.{Text}
use stoatpp.Voice.Protobuf.{PbReader, has_more, read_varint, read_string, skip_field}

-- What a loop comes to: a value, a behaviour that C++ does not define (a read outside the memory, a null
-- pointer), the end of the program (`std::terminate`), or (in the model only) the end of its fuel.
pub data Parsed {ℓ} (A : Type ℓ) : Type ℓ where
  parsed : A → Parsed A
  undefined : Parsed A
  terminated : Parsed A
  exhausted : Parsed A

abbrev pub defined {ℓ} : {A : Type ℓ} → Option A → Parsed A
defined none = undefined
defined (some a) = parsed a

infixl 10 ◌>>=◌
abbrev pub ◌>>=◌ {ℓ κ} : {A : Type ℓ} {B : Type κ} → Parsed A → (A → Parsed B) → Parsed B
parsed a >>= f = f a
undefined >>= f = undefined
terminated >>= f = terminated
exhausted >>= f = exhausted

-- `int field_num = key >> 3; int wire_type = key & 7;`
abbrev pub field_of : ℕ → ℕ
field_of key = key / 2 ^ 3 % 2 ^ 32

abbrev pub wire_of : ℕ → ℕ
wire_of key = key % 2 ^ 3

-- What a loop does with a field, by its number and its wire type: it reads the field and changes a value.
abbrev pub Step : Type 0 → Type 0
Step A = ℕ → ℕ → A → PbReader → Parsed (A × PbReader)

unfoldable pub read_fields : {A : Type 0} → Step A → ℕ → A → PbReader → Parsed A
unfolding read_varint
read_fields step zero a r = exhausted
read_fields step (suc fuel) a r =
    if has_more r
    then (do
      (key, after) ← defined (read_varint r)
      (b, next) ← step (field_of key) (wire_of key) a after
      read_fields step fuel b next)
    else parsed a

-- `x = reader.read_string()`
abbrev pub store_text : {A : Type 0} → (Text → A) → PbReader → Parsed (A × PbReader)
store_text set r = do (s, after) ← defined (read_string r); parsed (set s, after)

-- `reader.skip_field(wire_type)`
abbrev pub skip : {A : Type 0} → ℕ → A → PbReader → Parsed (A × PbReader)
skip wire_type a r = do after ← defined (skip_field wire_type r); parsed (a, after)
