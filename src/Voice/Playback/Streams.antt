-- ===== src/Voice/Playback/Streams.antt =====
-- The streams of the client of src/pulse_voice.cpp.
use stoatpp.Prelude.{ℕ, ◌≡◌, refl, Bool, true, false, List, [], arith}
use stoatpp.Text.{Text}
use stoatpp.Voice.Playback.{
  PulseClient, PulseAnswer, init, shutdown, set_audio_monitor, write_audio, record_mic,
}

-- A stream is open only in a client that is initialized.
abbrev pub HoldsStreams : PulseClient → Type 0
HoldsStreams p =
    (p.playing ≡ true → p.initialized ≡ true) × (p.recording ≡ true → p.initialized ≡ true)

write_audio-HoldsStreams :
    (answer : PulseAnswer) (bytes : List ℕ) (p : PulseClient)
    → HoldsStreams p
    → HoldsStreams (write_audio answer bytes p).1
unfolding write_audio
write_audio-HoldsStreams answer bytes p h =
    (λ e. ground (arith, h.0, h.1, e), λ e. ground (arith, h.0, h.1, e))

-- What happens to a client, in any order.
pub data PulseAction : Type 0 where
  initializing : Text → Text → PulseAction
  shutting_down : PulseAction
  monitoring : Bool → PulseAction
  writing_audio : PulseAnswer → List ℕ → PulseAction
  recording_mic : PulseAnswer → List ℕ → List ℕ → PulseAction

unfoldable pub pulse_act : PulseAction → PulseClient → PulseClient
unfolding shutdown write_audio record_mic
pulse_act (initializing app_name stream_name) p = init app_name stream_name p
pulse_act shutting_down p = (shutdown p).0
pulse_act (monitoring given) p = set_audio_monitor given p
pulse_act (writing_audio answer bytes) p = (write_audio answer bytes p).1
pulse_act (recording_mic answer blank heard) p =
    (record_mic Unit tt (λ samples. tt) answer blank heard p).2

-- Every step keeps a stream from being open in a client that is not initialized.
pub pulse_act-HoldsStreams :
    (a : PulseAction) (p : PulseClient) → HoldsStreams p → HoldsStreams (pulse_act a p)
unfolding pulse_act
pulse_act-HoldsStreams (initializing app_name stream_name) p h = ((λ e. refl), (λ e. refl))
pulse_act-HoldsStreams shutting_down p h =
    ((λ e. absurd (ground (arith, e))), (λ e. absurd (ground (arith, e))))
pulse_act-HoldsStreams (monitoring given) p h = h
pulse_act-HoldsStreams (writing_audio answer bytes) p h = write_audio-HoldsStreams answer bytes p h
pulse_act-HoldsStreams (recording_mic answer blank heard) p h =
    ((λ e. ground (arith, h.0, h.1, e)), (λ e. ground (arith, h.0, h.1, e)))

-- After a shutdown nothing is written, and the monitor hears nothing.
pub write_audio-shutdown :
    (answer : PulseAnswer) (bytes : List ℕ) (p : PulseClient)
    → write_audio answer bytes (shutdown p).0 ≡ (false, (shutdown p).0, [])
unfolding write_audio shutdown
write_audio-shutdown answer bytes p = refl
