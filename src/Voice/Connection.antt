-- ===== src/Voice/Connection.antt =====
-- The socket's and the peer connections' callbacks, the sending thread, and `connect`, `disconnect`, `is_connected`
-- and `write_pcm` of src/voice_connection.cpp.
pub mod Audio
use stoatpp.Prelude.{
  ℕ, zero, suc, Bool, true, false, List, [], ◌∷◌, ◌++◌, if◌then◌else◌, ◌&&◌, ◌||◌, not, length, leb,
}
use stoatpp.Prelude.Int.{ℤ, pos}
use stoatpp.Text.{Text, lit}
use stoatpp.Json.{JsonLib}
use stoatpp.Voice.Requests.{
  SignalTarget, publisher, subscriber, wrapped_join_request, sdp_answer, sdp_offer, trickle,
}
use stoatpp.Voice.Fields.{Parsed, parsed, ◌>>=◌}
use stoatpp.Voice.Session.{
  VoiceSession, VoiceEffect, binary_sent, frame_sent, url_set, socket_started, socket_stopped,
}
use stoatpp.Voice.Signals.{and_effects, handle_binary_message}

-- `stop_thread`: the flag is cleared, and the thread is waited for and joined.
abbrev pub stop_thread : VoiceSession → VoiceSession
stop_thread s = record s { running = false; has_thread = false }

-- What `disconnect` does once the socket has stopped, whose thread it waits for.
abbrev pub reset_session : VoiceSession → VoiceSession
reset_session s = record s {
  has_sub_pc = false;
  has_pub_pc = false;
  has_track = false;
  has_encoder = false;
  joined = false;
  failed = false;
}

-- The address of the signalling socket.
abbrev pub rtc_url : Text → Text → Text
rtc_url ws_url token = (ws_url ++ lit "/rtc?access_token=") ++ (token ++ lit "&protocol=8&sdk=cpp")

-- `voice_connection::connect` behind its `disconnect`, up to the wait for the join response.
abbrev pub connect_voice : Text → Text → VoiceSession → VoiceSession × List VoiceEffect
connect_voice ws_url token s = (
  record s { joined = false; failed = false; ice_servers = [] },
  url_set (rtc_url ws_url token) ∷ socket_started ∷ [],
)

-- The end of that wait, on a join, on a failure or after ten seconds: what `connect` returns, and whether it
-- disconnects first.
abbrev pub end_of_connect : VoiceSession → Bool × Bool
end_of_connect s = if s.joined || s.failed then (s.joined, false) else (false, true)

-- `voice_connection::is_connected`, with whether the state of the publisher's peer connection is `Connected`.
abbrev pub is_connected : Bool → VoiceSession → Bool
is_connected pub_connected s = s.joined && (s.has_pub_pc && pub_connected)

-- `voice_connection::write_pcm`
unfoldable pub write_pcm : List ℕ → VoiceSession → Bool × VoiceSession
write_pcm samples s =
    if not s.running then (false, s) else (true, record s { pcm_queue = s.pcm_queue ++ samples })

abbrev pub frame_size : ℕ
frame_size = 960

-- The loop that takes a frame from the queue: the frame, and what is left.
unfoldable pub pop_frame : ℕ → List ℕ → List ℕ × List ℕ
pop_frame zero queue = ([], queue)
pop_frame (suc n) [] = ([], [])
pop_frame (suc n) (x ∷ queue) = let (frame, rest) = pop_frame n queue in (x ∷ frame, rest)

-- A round of `send_loop` with frames of a size, with whether the track is open and whether `opus_encode` gives any
-- bytes for the frame: a frame that is not encoded is not sent. While fewer samples are there, the thread waits.
unfoldable pub frame_round : ℕ → Bool → Bool → VoiceSession → VoiceSession × List VoiceEffect
unfolding pop_frame
frame_round size is_open encodes s =
    if s.running && leb size (length s.pcm_queue)
    then (
      record s { pcm_queue = (pop_frame size s.pcm_queue).1 },
      if s.has_track && (is_open && s.has_encoder) && encodes
          then frame_sent (pop_frame size s.pcm_queue).0 ∷ []
          else [],
    )
    else (s, [])

unfoldable pub send_round : Bool → Bool → VoiceSession → VoiceSession × List VoiceEffect
unfolding frame_round
send_round is_open encodes s = frame_round frame_size is_open encodes s

-- The callback of a peer connection for its own description.
abbrev pub on_local_description : SignalTarget → Text → List VoiceEffect
on_local_description subscriber sdp = binary_sent (sdp_answer sdp) ∷ []
on_local_description publisher sdp = binary_sent (sdp_offer sdp) ∷ []

-- What the socket calls back with; `opened` and `closed` are `Open` and `Close`.
pub data SocketMessage : Type 0 where
  opened : SocketMessage
  binary_frame : List ℕ → SocketMessage
  text_frame : SocketMessage
  error : SocketMessage
  closed : SocketMessage

-- A step of the bot, of the socket (with the outcome of `opus_encoder_create`), of a peer connection or of the
-- sending thread.
pub data VoiceAction : Type 0 where
  connecting : Text → Text → VoiceAction
  stopping_thread : VoiceAction
  stopping_socket : VoiceAction
  resetting : VoiceAction
  writing : List ℕ → VoiceAction
  socket : Bool → SocketMessage → VoiceAction
  local_description : SignalTarget → Text → VoiceAction
  local_candidate : SignalTarget → Text → Text → VoiceAction
  sending : Bool → Bool → VoiceAction

-- `voice_connection::disconnect`: steps between which callbacks may run.
abbrev pub disconnect_voice : List VoiceAction
disconnect_voice = stopping_thread ∷ stopping_socket ∷ resetting ∷ []

module _ (J : JsonLib) where
  -- The callback of a peer connection for one of its own candidates, with its mid.
  abbrev pub candidate_json : Text → Text → J.Json
  candidate_json candidate mid =
      J.with_field
        (J.with_field (J.with_field J.null (lit "candidate") (J.of_text candidate)) (lit "sdpMid")
          (J.of_text mid))
        (lit "sdpMLineIndex") (J.of_int (pos 0))

  abbrev pub on_local_candidate : SignalTarget → Text → Text → List VoiceEffect
  on_local_candidate target candidate mid =
      binary_sent (trickle (J.dump (candidate_json candidate mid)) target) ∷ []

  -- The callback of the socket. The number is the fuel of the loops that read a message.
  abbrev pub on_socket :
      ℕ → Bool → SocketMessage → VoiceSession → Parsed (VoiceSession × List VoiceEffect)
  on_socket fuel opus_ok opened s = parsed (s, binary_sent wrapped_join_request ∷ [])
  on_socket fuel opus_ok (binary_frame bytes) s = handle_binary_message J opus_ok fuel s bytes
  on_socket fuel opus_ok text_frame s = parsed (s, [])
  on_socket fuel opus_ok error s = parsed (record s { failed = true }, [])
  on_socket fuel opus_ok closed s = parsed (stop_thread (record s { failed = true }), [])

  unfoldable pub voice_act :
      ℕ → VoiceAction → VoiceSession → Parsed (VoiceSession × List VoiceEffect)
  unfolding handle_binary_message write_pcm send_round wrapped_join_request sdp_answer sdp_offer
      trickle
  voice_act fuel (connecting ws_url token) s = parsed (connect_voice ws_url token s)
  voice_act fuel stopping_thread s = parsed (stop_thread s, [])
  voice_act fuel stopping_socket s = parsed (s, socket_stopped ∷ [])
  voice_act fuel resetting s = parsed (reset_session s, [])
  voice_act fuel (writing samples) s = parsed ((write_pcm samples s).1, [])
  voice_act fuel (socket opus_ok msg) s = on_socket fuel opus_ok msg s
  voice_act fuel (local_description target sdp) s = parsed (s, on_local_description target sdp)
  voice_act fuel (local_candidate target candidate mid) s =
      parsed (s, on_local_candidate target candidate mid)
  voice_act fuel (sending is_open encodes) s = parsed (send_round is_open encodes s)

  unfoldable pub voice_acts :
      ℕ → List VoiceAction → VoiceSession → Parsed (VoiceSession × List VoiceEffect)
  unfolding voice_act
  voice_acts fuel [] s = parsed (s, [])
  voice_acts fuel (a ∷ actions) s = do
    (s1, effects) ← voice_act fuel a s
    p ← voice_acts fuel actions s1
    parsed (and_effects effects p)
