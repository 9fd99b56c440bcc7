-- ===== src/Voice/Playback.antt =====
-- The PulseAudio client of src/pulse_voice.cpp. What the library's calls come to is given with each operation; `double`,
-- the samples of a tone and the loudness of a recording are parameters.
pub mod Streams
use stoatpp.Prelude.{
  ℕ, zero, suc, ◌/◌, Bool, true, false, Option, none, some, List, [], ◌∷◌, ◌++◌, if◌then◌else◌,
  ◌||◌, not, length,
}
use stoatpp.Text.{Text, lit}

-- `playing` and `recording`: the streams are open.
pub record PulseClient : Type 0 where
  pub initialized : Bool
  pub playing : Bool
  pub recording : Bool
  pub has_monitor : Bool
  pub app_name : Text
  pub stream_name : Text

-- The monitor is called with the bytes and the number of samples in them; a stream is opened (for playing or not)
-- or freed; bytes are written; a pause, in milliseconds.
pub data PulseEffect : Type 0 where
  monitored : List ℕ → ℕ → PulseEffect
  stream_opened : Bool → PulseEffect
  stream_freed : Bool → PulseEffect
  audio_written : List ℕ → PulseEffect
  paused_ms : ℕ → PulseEffect

-- What the library answers: whether a stream opens, whether it takes or gives the samples, whether it drains.
pub record PulseAnswer : Type 0 where
  pub opens : Bool
  pub transfers : Bool
  pub drains : Bool

abbrev pub new_pulse_client : PulseClient
new_pulse_client = record {
  initialized = false;
  playing = false;
  recording = false;
  has_monitor = false;
  app_name = [];
  stream_name = [];
}

-- `init`, which returns true.
abbrev pub init : Text → Text → PulseClient → PulseClient
init app_name stream_name p = record p {
  app_name = app_name;
  stream_name = stream_name;
  initialized = true;
}

-- `shutdown`
unfoldable pub shutdown : PulseClient → PulseClient × List PulseEffect
shutdown p = (
  record p { playing = false; recording = false; initialized = false },
  (if p.playing then stream_freed true ∷ [] else [])
      ++ (if p.recording then stream_freed false ∷ [] else []),
)

-- `set_audio_monitor`, with whether it is given a function.
abbrev pub set_audio_monitor : Bool → PulseClient → PulseClient
set_audio_monitor given p = record p { has_monitor = given }

abbrev Done : Type 0
Done = Bool × PulseClient × List PulseEffect

abbrev monitor_effects : PulseClient → List ℕ → List PulseEffect
monitor_effects p bytes = if p.has_monitor then monitored bytes (length bytes / 2) ∷ [] else []

abbrev write_opened : PulseAnswer → List ℕ → PulseClient → List PulseEffect → Done
write_opened answer bytes p effects =
    if answer.transfers then (true, p, effects ++ audio_written bytes ∷ []) else (false, p, effects)

-- `write_audio`
unfoldable pub write_audio : PulseAnswer → List ℕ → PulseClient → Done
write_audio answer bytes p =
    if not p.initialized
    then (false, p, [])
    else if p.playing
    then write_opened answer bytes p (monitor_effects p bytes)
    else if answer.opens
    then write_opened answer bytes (record p { playing = true })
        (monitor_effects p bytes ++ stream_opened true ∷ [])
    else (false, p, monitor_effects p bytes)

-- `drain`
unfoldable pub drain : PulseAnswer → PulseClient → Bool
drain answer p = if not p.initialized || not p.playing then false else answer.drains

module _ (Double : Type 0) (double : Text → Double) (tone : Double → Double → List ℕ) where
  -- `play_tone`: the bytes of a tone of a frequency and a duration.
  unfoldable pub play_tone : PulseAnswer → Double → Double → PulseClient → Done
  unfolding write_audio drain
  play_tone answer frequency_hz duration_s p =
      if not p.initialized
      then (false, p, [])
      else (let (written, q, effects) = write_audio answer (tone frequency_hz duration_s) p in
          if not written then (false, q, effects) else (drain answer q, q, effects))

  abbrev two_tones : PulseAnswer → PulseAnswer → Text → Text → PulseClient → Done
  two_tones first second low high p =
      let (played, q, effects) = play_tone first (double low) (double (lit "0.15")) p in
      let (again, r, more) = play_tone second (double high) (double (lit "0.25")) q in
      (true, r, effects ++ paused_ms 50 ∷ more)

  -- `play_chime`, whose tones may fail.
  unfoldable pub play_chime : PulseAnswer → PulseAnswer → Bool → PulseClient → Done
  unfolding play_tone
  play_chime first second is_join p =
      if not p.initialized
      then (false, p, [])
      else if is_join
      then two_tones first second (lit "880.0") (lit "1109.73") p
      else two_tones first second (lit "587.33") (lit "440.0") p

-- The samples of a recording and its loudness.
module _ (Double : Type 0) (silence : Double) (rms : List ℕ → Double) where
  abbrev read_opened : PulseAnswer → List ℕ → List ℕ → PulseClient → List ℕ × Double × PulseClient
  read_opened answer blank heard p =
      if answer.transfers then (heard, rms heard, p) else (blank, silence, p)

  -- `record_mic`, with as many zeros as there are samples, and what is heard.
  unfoldable pub record_mic :
      PulseAnswer → List ℕ → List ℕ → PulseClient → List ℕ × Double × PulseClient
  record_mic answer blank heard p =
      if not p.initialized
      then ([], silence, p)
      else if p.recording
      then read_opened answer blank heard p
      else if answer.opens
      then read_opened answer blank heard (record p { recording = true })
      else ([], silence, p)
