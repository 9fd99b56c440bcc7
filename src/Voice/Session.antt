-- ===== src/Voice/Session.antt =====
-- The state of `voice_connection::impl` of src/voice_connection.cpp, and what it does to the outside. The
-- WebSocket, the peer connections, the track and the encoder are libraries'.
use stoatpp.Prelude.{ℕ, Bool, false, Option, none, some, List, [], ◌∷◌, ◌++◌}
use stoatpp.Text.{Text}
use stoatpp.Voice.Requests.{SignalTarget}
use stoatpp.Voice.IceServers.{RtcServer, add_ice_server}

pub record IceServerInfo : Type 0 where
  pub urls : List Text
  pub username : Text
  pub credential : Text

-- `has_thread`: the sending thread is not joined. The samples are those of `pcm_queue`, each the pattern of
-- an `int16_t`.
pub record VoiceSession : Type 0 where
  pub ice_servers : List IceServerInfo
  pub has_sub_pc : Bool
  pub has_pub_pc : Bool
  pub has_track : Bool
  pub has_encoder : Bool
  pub joined : Bool
  pub failed : Bool
  pub running : Bool
  pub has_thread : Bool
  pub pcm_queue : List ℕ
  pub track_sid : Text

-- A binary frame; both peer connections made with these servers; `setRemoteDescription` (text, kind) and
-- `addRemoteCandidate` (candidate, mid) of one of them; the track with its id, which offers; a frame of samples
-- for the encoder and the track; `ws.setUrl`, `ws.start`, `ws.stop`.
pub data VoiceEffect : Type 0 where
  binary_sent : List ℕ → VoiceEffect
  connections_made : List RtcServer → VoiceEffect
  described : SignalTarget → Text → Text → VoiceEffect
  candidate_added : SignalTarget → Text → Text → VoiceEffect
  track_added : Text → VoiceEffect
  frame_sent : List ℕ → VoiceEffect
  url_set : Text → VoiceEffect
  socket_started : VoiceEffect
  socket_stopped : VoiceEffect

-- `voice_connection::voice_connection`
abbrev pub new_voice_session : VoiceSession
new_voice_session = record {
  ice_servers = [];
  has_sub_pc = false;
  has_pub_pc = false;
  has_track = false;
  has_encoder = false;
  joined = false;
  failed = false;
  running = false;
  has_thread = false;
  pcm_queue = [];
  track_sid = [];
}

-- The loops of `initialize_peer_connections` over the servers and their addresses.
abbrev pub keep_server : Option RtcServer → List RtcServer → List RtcServer
keep_server none servers = servers
keep_server (some s) servers = s ∷ servers

unfoldable pub servers_of_urls : IceServerInfo → List Text → List RtcServer
unfolding add_ice_server
servers_of_urls info [] = []
servers_of_urls info (url ∷ urls) =
    keep_server (add_ice_server url info.username info.credential) (servers_of_urls info urls)

unfoldable pub rtc_servers : List IceServerInfo → List RtcServer
unfolding servers_of_urls
rtc_servers [] = []
rtc_servers (info ∷ infos) = servers_of_urls info info.urls ++ rtc_servers infos
