-- ===== src/Voice/Signals/Nested.antt =====
-- Messages inside of messages, and messages that hold one signal (src/voice_connection.cpp).
use mathlib.Core.List.{append-nil}
use stoatpp.Prelude.{
  ℕ, ◌+◌, ◌≤◌, ◌<◌, ◌^◌, ◌≡◌, refl, sym, ap, ◌∙◌, Bool, List, [], ◌∷◌, ◌++◌, arith, length, Every,
}
use stoatpp.Json.{JsonLib}
use stoatpp.Voice.Protobuf.{PbReader, write_message, write_string}
use stoatpp.Voice.Fields.{parsed, Step}
use stoatpp.Voice.Fields.Ahead.{Ahead, moved, enter-Ahead, text_bytes, length-text_bytes}
use stoatpp.Voice.Fields.Written.{
  Field, text, fields_bytes, key_bytes, write_fields, write_fields-bytes, write_field-bytes, Fits,
  Handles, changed, read_fields_written,
}
use stoatpp.Voice.Session.{VoiceSession, VoiceEffect}
use stoatpp.Voice.Steps.{nested}
use stoatpp.Voice.Signals.{signal_step, handle_binary_message}

-- A message inside of another, written field by field, is read with the fuel that its fields need.
pub nested_written :
    {A : Type 0} (step : Step A) (change : Field → A → A) (fs : List Field) (fuel : ℕ) (a : A)
    → Every (Handles step change) fs
    → Every Fits fs
    → length fs < fuel
    → (r : PbReader) (ys : List ℕ) → Ahead r (text_bytes (fields_bytes fs) ++ ys)
    → r.offset + length (text_bytes (fields_bytes fs)) ≤ r.size
    → r.size < 2 ^ 64
    → nested step fuel a r
      ≡ parsed (changed change a fs, moved (length (text_bytes (fields_bytes fs))) r)
unfolding nested
nested_written step change fs fuel a handles fits enough r ys ahead room small =
    let inner =
      read_fields_written step change fs fuel a
        (record { bytes = fields_bytes fs ++ ys; size = length (fields_bytes fs); offset = 0 }) ys
        handles fits enough refl (omega arith)
        (omega (arith, room, small, length-text_bytes (fields_bytes fs))) in
    rw (nested, enter-Ahead r (fields_bytes fs) ys ahead room small, inner) refl

-- A message that holds one signal, by its number and the fields of the signal.
abbrev pub signal_message : ℕ → List Field → List ℕ
signal_message n fs = write_message [] n (write_fields [] fs)

signal_message-bytes :
    (n : ℕ) (fs : List Field) → signal_message n fs ≡ fields_bytes (text n (fields_bytes fs) ∷ [])
unfolding write_message write_string
signal_message-bytes n fs =
    ap (write_message [] n) (write_fields-bytes [] fs)
    ∙ write_field-bytes [] (text n (fields_bytes fs))
    ∙ ap (λ b. key_bytes (text n (fields_bytes fs)) ++ b)
        (sym (append-nil (text_bytes (fields_bytes fs))))

-- It is handled as its signal is.
pub handle_binary_message-signal_message :
    (J : JsonLib) (opus_ok : Bool) (fuel n : ℕ) (fs : List Field)
    (change : Field → VoiceSession × List VoiceEffect → VoiceSession × List VoiceEffect)
    (s : VoiceSession)
    → n < 2 ^ 29
    → Handles (signal_step J opus_ok fuel) change (text n (fields_bytes fs))
    → 1 < fuel
    → length (signal_message n fs) < 2 ^ 64
    → handle_binary_message J opus_ok fuel s (signal_message n fs)
      ≡ parsed (change (text n (fields_bytes fs)) (s, []))
unfolding handle_binary_message
handle_binary_message-signal_message J opus_ok fuel n fs change s n_fits handles enough small =
    let f = text n (fields_bytes fs) in
    let bytes = signal_message n fs in
    let written = signal_message-bytes n fs in
    read_fields_written (signal_step J opus_ok fuel) change (f ∷ []) fuel (s, [])
      (record { bytes = bytes ++ 0 ∷ []; size = length bytes; offset = 0 }) (0 ∷ []) (handles, tt)
      (n_fits, tt) enough (ap (λ b. b ++ 0 ∷ []) written) (ap length written ∙ omega arith) small
