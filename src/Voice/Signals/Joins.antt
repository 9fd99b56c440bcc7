-- ===== src/Voice/Signals/Joins.antt =====
-- A join response makes the peer connections with the servers that it lists (src/voice_connection.cpp).
use mathlib.Core.List.{append_assoc, append-nil}
use stoatpp.Prelude.{
  ℕ, ◌+◌, ◌<◌, ◌^◌, ◌≡◌, refl, sym, ap, ◌∙◌, Bool, true, Option, none, some, List, [], ◌∷◌, ◌++◌,
  map, if◌then◌else◌, arith, length, Every, Every-always, Bool-cases, inl, inr, ◌==◌,
}
use stoatpp.Text.{Text, lit}
use stoatpp.Json.{JsonLib}
use stoatpp.Voice.Fields.{Parsed, parsed, undefined, terminated, exhausted, read_fields}
use stoatpp.Voice.Fields.Ahead.{read_string-Ahead, skip_number-Ahead, skip_text-Ahead}
use stoatpp.Voice.Fields.Written.{
  Field, number, text, fields_bytes, Fits, Handles, changed, read_fields_written,
}
use stoatpp.Voice.Requests.{add_track, my_cid}
use stoatpp.Voice.IceServers.{RtcServer, add_ice_server}
use stoatpp.Voice.Session.{
  IceServerInfo, VoiceSession, VoiceEffect, connections_made, binary_sent, servers_of_urls,
  keep_server, rtc_servers,
}
use stoatpp.Voice.Steps.{ice_step, no_info, join_step}
use stoatpp.Voice.Signals.{on_joined, and_effects, join_signal, signal_step, handle_binary_message}
use stoatpp.Voice.Signals.Nested.{
  nested_written, signal_message, handle_binary_message-signal_message,
}

abbrev ice_change : Field → IceServerInfo → IceServerInfo
ice_change (number n v) info = info
ice_change (text n s) info =
    if n == 1
    then record info { urls = info.urls ++ s ∷ [] }
    else if n == 2
    then record info { username = s }
    else if n == 3
    then record info { credential = s }
    else info

ice_step-Handles : (f : Field) → Handles ice_step ice_change f
unfolding ice_step
ice_step-Handles (number n v) info r ys fits ahead room small =
    rw (ice_step, skip_number-Ahead r v ys fits.1 ahead room) refl
ice_step-Handles (text n s) info r ys fits ahead room small =
    let taken = read_string-Ahead r s ys ahead room small in
    elim (Bool-cases (n == 1)) [
      | inl e ↦ rw (ice_step, e, taken) refl
      | inr e ↦ elim (Bool-cases (n == 2)) [
        | inl e2 ↦ rw (ice_step, e, e2, taken) refl
        | inr e2 ↦ elim (Bool-cases (n == 3)) [
          | inl e3 ↦ rw (ice_step, e, e2, e3, taken) refl
          | inr e3 ↦ rw (ice_step, e, e2, e3, skip_text-Ahead r s ys ahead room small) refl
        ]
      ]
    ]

-- The server that the fields of its message describe: every address, and the last user name and credential.
abbrev pub info_of : List Field → IceServerInfo
info_of fs = changed ice_change no_info fs

-- The field of a join response that holds a server.
abbrev pub server_field : List Field → Field
server_field fs = text 5 (fields_bytes fs)

abbrev given : Option RtcServer → List RtcServer
given none = []
given (some server) = server ∷ []

abbrev addressed_by : IceServerInfo → List Text → List RtcServer
addressed_by info [] = []
addressed_by info (url ∷ urls) =
    given (add_ice_server url info.username info.credential) ++ addressed_by info urls

-- The servers that the addresses give, one after the other.
abbrev pub addressed : List IceServerInfo → List RtcServer
addressed [] = []
addressed (info ∷ infos) = addressed_by info info.urls ++ addressed infos

-- The request for a track, field by field: its id and name, its type (0, audio) and its source (2, the microphone).
abbrev pub track_request : List ℕ
track_request =
    signal_message 4 (text 1 my_cid ∷ text 2 (lit "audio") ∷ number 3 0 ∷ number 8 2 ∷ [])

keep_server-given :
    (o : Option RtcServer) (servers : List RtcServer) → keep_server o servers ≡ given o ++ servers
keep_server-given none servers = refl
keep_server-given (some server) servers = refl

servers_of_urls-addressed_by :
    (info : IceServerInfo) (urls : List Text) → servers_of_urls info urls ≡ addressed_by info urls
unfolding servers_of_urls
servers_of_urls-addressed_by info [] = refl
servers_of_urls-addressed_by info (url ∷ urls) =
    keep_server-given (add_ice_server url info.username info.credential) (servers_of_urls info urls)
    ∙ ap (λ l. given (add_ice_server url info.username info.credential) ++ l)
        (servers_of_urls-addressed_by info urls)

rtc_servers-addressed : (infos : List IceServerInfo) → rtc_servers infos ≡ addressed infos
unfolding rtc_servers
rtc_servers-addressed [] = refl
rtc_servers-addressed (info ∷ infos) =
    rw (servers_of_urls-addressed_by info info.urls, rtc_servers-addressed infos) refl

add_track-track_request : add_track ≡ track_request
unfolding add_track stoatpp.Voice.Protobuf.write_message
add_track-track_request = refl

joined_as_promised :
    {p : Parsed (VoiceSession × List VoiceEffect)} (s : VoiceSession) (infos : List IceServerInfo)
    → p ≡ parsed (on_joined s infos)
    → p
      ≡ parsed (
        record s { ice_servers = infos; has_sub_pc = true; has_pub_pc = true; joined = true },
        connections_made (addressed infos) ∷ binary_sent track_request ∷ [],
      )
joined_as_promised s infos h =
    h
    ∙ ap
        (λ effects. parsed (
          record s { ice_servers = infos; has_sub_pc = true; has_pub_pc = true; joined = true },
          effects,
        ))
        (rw (rtc_servers-addressed infos, add_track-track_request) refl)

abbrev pub WellFormed : ℕ → List Field → Type 0
WellFormed fuel fs = Every Fits fs × (length fs < fuel) × (length (fields_bytes fs) < 2 ^ 64)

abbrev info_read : Parsed IceServerInfo → List IceServerInfo
info_read (parsed info) = info ∷ []
info_read undefined = []
info_read terminated = []
info_read exhausted = []

module _ (fuel : ℕ) where
  abbrev read_info : Text → List IceServerInfo
  read_info s =
      info_read
        (read_fields ice_step fuel no_info (record { bytes = s; size = length s; offset = 0 }))

  abbrev join_change : Field → List IceServerInfo → List IceServerInfo
  join_change (number n v) infos = infos
  join_change (text n s) infos = infos ++ read_info s

  read_info_written :
      (fs : List Field) → WellFormed fuel fs → read_info (fields_bytes fs) ≡ info_of fs ∷ []
  read_info_written fs (fits, enough, small) = ap info_read (
      read_fields_written ice_step ice_change fs fuel no_info
        (record { bytes = fields_bytes fs; size = length (fields_bytes fs); offset = 0 }) []
        (Every-always (Handles ice_step ice_change) ice_step-Handles fs) fits enough
        (sym (append-nil (fields_bytes fs))) (omega arith) small)

  join_step-Handles :
      (fs : List Field)
      → WellFormed fuel fs
      → Handles (join_step fuel) join_change (server_field fs)
  unfolding join_step
  join_step-Handles fs h infos r ys five ahead room small =
      let inner =
        nested_written ice_step ice_change fs fuel no_info
          (Every-always (Handles ice_step ice_change) ice_step-Handles fs) h.0 h.1 r ys ahead room
          small in
      rw (join_step, inner, read_info_written fs h) refl

  servers-Handles :
      (servers : List (List Field))
      → Every (WellFormed fuel) servers
      → Every (Handles (join_step fuel) join_change) (map server_field servers)
  servers-Handles [] h = tt
  servers-Handles (fs ∷ servers) h = (join_step-Handles fs h.0, servers-Handles servers h.1)

  servers-Fits : (servers : List (List Field)) → Every Fits (map server_field servers)
  servers-Fits [] = tt
  servers-Fits (fs ∷ servers) = (omega arith, servers-Fits servers)

  servers_read :
      (servers : List (List Field)) (infos : List IceServerInfo)
      → Every (WellFormed fuel) servers
      → changed join_change infos (map server_field servers) ≡ infos ++ map info_of servers
  servers_read [] infos h = sym (append-nil infos)
  servers_read (fs ∷ servers) infos h =
      ap (λ more. changed join_change (infos ++ more) (map server_field servers))
        (read_info_written fs h.0)
      ∙ servers_read servers (infos ++ info_of fs ∷ []) h.1
      ∙ append_assoc infos (info_of fs ∷ []) (map info_of servers)

  length-servers :
      (servers : List (List Field)) → length (map server_field servers) ≡ length servers
  length-servers [] = refl
  length-servers (fs ∷ servers) = omega (arith, length-servers servers)

  module _ (servers : List (List Field)) (each : Every (WellFormed fuel) servers)
      (enough : 1 + length servers < fuel) where
    abbrev joined_change : Field → VoiceSession × List VoiceEffect → VoiceSession × List VoiceEffect
    joined_change f (s, effects) =
        and_effects effects (on_joined s (s.ice_servers ++ map info_of servers))

    signal_step-join_signal :
        (J : JsonLib) (opus_ok : Bool)
        → Handles
            (signal_step J opus_ok fuel)
            joined_change
            (text 1 (fields_bytes (map server_field servers)))
    unfolding signal_step join_signal
    signal_step-join_signal J opus_ok (s, effects) r ys one ahead room small =
        let inner =
          nested_written (join_step fuel) join_change (map server_field servers) fuel s.ice_servers
            (servers-Handles servers each) (servers-Fits servers)
            (omega (arith, enough, length-servers servers)) r ys ahead room small in
        rw (signal_step, join_signal, inner, servers_read servers s.ice_servers each) refl

    -- A join response that lists servers, each written field by field in any order, joins the session: the servers
    -- are put behind those that were known, both peer connections are made with the servers that all their
    -- addresses give, in order, then one audio track of the microphone is requested, and nothing else is done. The fields of each have numbers below 2^29 and integers of 64 bits, the message is
    -- shorter than 2^64 bytes, and the fuel exceeds the fields of each server, and the servers by two or more.
    pub handle_binary_message-server_field :
        (J : JsonLib) (opus_ok : Bool) (s : VoiceSession)
        → length (signal_message 1 (map server_field servers)) < 2 ^ 64
        → handle_binary_message J opus_ok fuel s (signal_message 1 (map server_field servers))
          ≡ parsed (
            record s {
              ice_servers = s.ice_servers ++ map info_of servers;
              has_sub_pc = true;
              has_pub_pc = true;
              joined = true;
            },
            connections_made (addressed (s.ice_servers ++ map info_of servers))
                ∷ binary_sent track_request
                ∷ [],
          )
    handle_binary_message-server_field J opus_ok s small =
        joined_as_promised s (s.ice_servers ++ map info_of servers) (
          handle_binary_message-signal_message J opus_ok fuel 1 (map server_field servers)
            joined_change s (omega arith) (signal_step-join_signal J opus_ok)
            (omega (arith, enough)) small)
