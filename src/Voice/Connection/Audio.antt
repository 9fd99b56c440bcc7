-- ===== src/Voice/Connection/Audio.antt =====
-- The queue of samples of src/voice_connection.cpp.
use stoatpp.Prelude.{
  ℕ, ◌+◌, Bool, ◌≡◌, true, List, [], ◌∷◌, ◌++◌, if◌then◌else◌, length, Every, ◌≤◌,
}
use stoatpp.Voice.Session.{VoiceSession, VoiceEffect, frame_sent}
use stoatpp.Voice.Connection.{write_pcm, send_round}

-- A call of `write_pcm`, or a round of the sending thread while the track is open, with whether its frame is encoded.
pub data AudioStep : Type 0 where
  write : List ℕ → AudioStep
  round : Bool → AudioStep

abbrev samples_written : AudioStep → List ℕ
samples_written (write samples) = samples
samples_written (round encodes) = []

abbrev pub written : List AudioStep → List ℕ
written [] = []
written (a ∷ steps) = samples_written a ++ written steps

-- The rounds whose frame would not be encoded.
abbrev pub failures : List AudioStep → ℕ
failures [] = 0
failures (write samples ∷ steps) = failures steps
failures (round encodes ∷ steps) = (if encodes then 0 else 1) + failures steps

-- A frame that is taken from the queue: whether it is encoded, and its samples.
abbrev pub Frame : Type 0
Frame = Bool × List ℕ

abbrev pub samples_of : List Frame → List ℕ
samples_of [] = []
samples_of (f ∷ frames) = f.1 ++ samples_of frames

-- The frames that are encoded are sent, in their order.
abbrev pub sent : List Frame → List VoiceEffect
sent [] = []
sent (f ∷ frames) = (if f.0 then frame_sent f.1 ∷ [] else []) ++ sent frames

abbrev pub lost : List Frame → ℕ
lost [] = 0
lost (f ∷ frames) = (if f.0 then 0 else 1) + lost frames

unfoldable audio_step : AudioStep → VoiceSession → VoiceSession × List VoiceEffect
unfolding write_pcm send_round
audio_step (write samples) s = ((write_pcm samples s).1, [])
audio_step (round encodes) s = send_round true encodes s

unfoldable pub audio_steps : List AudioStep → VoiceSession → VoiceSession × List VoiceEffect
unfolding audio_step
audio_steps [] s = (s, [])
audio_steps (a ∷ steps) s =
    let p = audio_step a s in let q = audio_steps steps p.0 in (q.0, p.1 ++ q.1)

-- The sending thread runs, and has its track and its encoder.
abbrev pub Sends : VoiceSession → Type 0
Sends s = (s.running ≡ true) × (s.has_track ≡ true) × (s.has_encoder ≡ true)

abbrev failed_by : AudioStep → ℕ
failed_by (write samples) = 0
failed_by (round encodes) = if encodes then 0 else 1

-- What a step keeps and gives: the frames that it takes.
abbrev Keeps : ℕ → VoiceSession → AudioStep → VoiceSession × List VoiceEffect → Type 0
Keeps size s a p =
    Sends p.0
    × (frames : List Frame) × (samples_of frames ++ p.0.pcm_queue
        ≡ s.pcm_queue ++ samples_written a)
    × Every (λ f. length f.1 ≡ size) frames
    × (p.1 ≡ sent frames)
    × (lost frames ≤ failed_by a)
