-- ===== src/Voice/Signals/Descriptions.antt =====
-- A session description that is written as `pb_writer` does reaches its peer connection
-- (src/voice_connection.cpp).
use stoatpp.Prelude.{
  ℕ, ◌+◌, ◌≤◌, ◌<◌, ◌^◌, ◌≡◌, refl, ap, ◌∙◌, Bool, false, List, [], ◌∷◌, ◌++◌, if◌then◌else◌, arith,
  length, Every, Every-always, Bool-cases, inl, inr, ◌==◌,
}
use stoatpp.Text.{Text, lit}
use stoatpp.Json.{JsonLib}
use stoatpp.Voice.Protobuf.{PbReader}
use stoatpp.Voice.Requests.{SignalTarget, publisher, subscriber}
use stoatpp.Voice.Fields.{parsed}
use stoatpp.Voice.Fields.Ahead.{
  Ahead, moved, read_string-Ahead, skip_number-Ahead, skip_text-Ahead, text_bytes,
}
use stoatpp.Voice.Fields.Written.{Field, number, text, fields_bytes, Fits, Handles, changed}
use stoatpp.Voice.Session.{VoiceSession, VoiceEffect, described}
use stoatpp.Voice.Steps.{sdp_step, nested}
use stoatpp.Voice.Signals.Nested.{
  nested_written, signal_message, handle_binary_message-signal_message,
}
use stoatpp.Voice.Signals.{and_effects, description_signal, signal_step, handle_binary_message}

abbrev sdp_change : Field → Text × Text → Text × Text
sdp_change (number n v) d = d
sdp_change (text n s) (type, sdp) =
    if n == 1 then (s, sdp) else if n == 2 then (type, s) else (type, sdp)

sdp_step-Handles : (f : Field) → Handles sdp_step sdp_change f
unfolding sdp_step
sdp_step-Handles (number n v) d r ys fits ahead room small =
    rw (sdp_step, skip_number-Ahead r v ys fits.1 ahead room) refl
sdp_step-Handles (text n s) d r ys fits ahead room small = elim (Bool-cases (n == 1)) [
  | inl e ↦ rw (sdp_step, e, read_string-Ahead r s ys ahead room small) refl
  | inr e ↦ elim (Bool-cases (n == 2)) [
    | inl e2 ↦ rw (sdp_step, e, e2, read_string-Ahead r s ys ahead room small) refl
    | inr e2 ↦ rw (sdp_step, e, e2, skip_text-Ahead r s ys ahead room small) refl
  ]
]

-- The text of the last field with a number.
abbrev pub text_of : ℕ → Text → List Field → Text
text_of n found [] = found
text_of n found (number m v ∷ fs) = text_of n found fs
text_of n found (text m s ∷ fs) = text_of n (if m == n then s else found) fs

description_change :
    (m : ℕ) (s : Text) (d : Text × Text) → (sdp_change (text m s) d).1 ≡ (if m == 2 then s else d.1)
description_change m s d = elim (Bool-cases (m == 1)) [
  | inl e ↦ let other : (m == 2) ≡ false = ground (arith, e) in rw (e, other) refl
  | inr e ↦ elim (Bool-cases (m == 2)) [ inl e2 ↦ rw (e, e2) refl | inr e2 ↦ rw (e, e2) refl ]
]

description-text_of :
    (fs : List Field) (d : Text × Text) → (changed sdp_change d fs).1 ≡ text_of 2 d.1 fs
description-text_of [] d = refl
description-text_of (number m v ∷ fs) d = description-text_of fs d
description-text_of (text m s ∷ fs) d =
    description-text_of fs (sdp_change (text m s) d)
    ∙ ap (λ t. text_of 2 t fs) (description_change m s d)

-- The fields of a signal that hold an answer and an offer.
abbrev pub signal_number : SignalTarget → ℕ
signal_number publisher = 2
signal_number subscriber = 3

abbrev pub description_message : SignalTarget → List Field → List ℕ
description_message t fs = signal_message (signal_number t) fs

-- What the server is promised of a description: the publishing connection takes it as an answer, the subscribing
-- one as an offer, each if it is made.
abbrev pub describes : SignalTarget → Text → VoiceSession → VoiceSession × List VoiceEffect
describes publisher sdp s =
    (s, if s.has_pub_pc then described publisher sdp (lit "answer") ∷ [] else [])
describes subscriber sdp s =
    (s, if s.has_sub_pc then described subscriber sdp (lit "offer") ∷ [] else [])

abbrev described_change :
    SignalTarget → Text → Field → VoiceSession × List VoiceEffect → VoiceSession × List VoiceEffect
described_change t sdp f (s, effects) = and_effects effects (describes t sdp s)

signal_number-lt : (t : SignalTarget) → signal_number t < 2 ^ 29
signal_number-lt publisher = omega arith
signal_number-lt subscriber = omega arith

module _ (fuel : ℕ) (fs : List Field) (fits : Every Fits fs) (enough : 1 + length fs < fuel) where
  nested_description :
      (r : PbReader) (ys : List ℕ)
      → Ahead r (text_bytes (fields_bytes fs) ++ ys)
      → r.offset + length (text_bytes (fields_bytes fs)) ≤ r.size
      → r.size < 2 ^ 64
      → nested sdp_step fuel ([], []) r
        ≡ parsed (changed sdp_change ([], []) fs, moved (length (text_bytes (fields_bytes fs))) r)
  nested_description =
      nested_written sdp_step sdp_change fs fuel ([], [])
        (Every-always (Handles sdp_step sdp_change) sdp_step-Handles fs) fits
        (omega (arith, enough))

  signal_step-Handles :
      (J : JsonLib) (opus_ok : Bool) (t : SignalTarget)
      → Handles
          (signal_step J opus_ok fuel)
          (described_change t (text_of 2 [] fs))
          (text (signal_number t) (fields_bytes fs))
  unfolding signal_step description_signal
  signal_step-Handles J opus_ok publisher (s, effects) r ys small_number ahead room small =
      rw
        (
          signal_step,
          description_signal,
          nested_description r ys ahead room small,
          description-text_of fs ([], []),
        )
        refl
  signal_step-Handles J opus_ok subscriber (s, effects) r ys small_number ahead room small =
      rw
        (
          signal_step,
          description_signal,
          nested_description r ys ahead room small,
          description-text_of fs ([], []),
        )
        refl

  -- An answer of the server, written field by field in any order, is given to the publishing peer connection as an
  -- answer, and an offer to the subscribing one as an offer, when that connection is made, with the last text of
  -- field 2; nothing else is done, and the session stays as it is. The fields have numbers below 2^29 and integers of 64 bits, the message is shorter than 2^64 bytes, and the
  -- fuel of the loops exceeds the number of fields by two or more.
  pub handle_binary_message-description_message :
      (J : JsonLib) (opus_ok : Bool) (t : SignalTarget) (s : VoiceSession)
      → length (description_message t fs) < 2 ^ 64
      → handle_binary_message J opus_ok fuel s (description_message t fs)
        ≡ parsed (describes t (text_of 2 [] fs) s)
  handle_binary_message-description_message J opus_ok t s small =
      handle_binary_message-signal_message J opus_ok fuel (signal_number t) fs
        (described_change t (text_of 2 [] fs)) s (signal_number-lt t)
        (signal_step-Handles J opus_ok t) (omega (arith, enough)) small
