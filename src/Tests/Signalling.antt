-- ===== src/Tests/Signalling.antt =====
-- Voice sessions and uploads at concrete inputs: src/voice_connection.cpp and src/rest.cpp.
use stoatpp.Prelude.{
  ℕ, zero, suc, ◌<◌, ◌^◌, ◌≡◌, refl, true, false, none, some, is_nil, if◌then◌else◌, List, [], ◌∷◌,
  arith, length, Every,
}
use stoatpp.Text.{Text, lit, text_eq}
use stoatpp.Rest.Fetch.{target_ext, effective_filename, effective_mime, fetch_target}
use stoatpp.Rest.Fetch.Names.{effective_filename-target_ext}
use stoatpp.Voice.Requests.{publisher, subscriber, add_track}
use stoatpp.Voice.Fields.{parsed}
use stoatpp.Voice.Fields.Written.{Field, number, text, Fits}
use stoatpp.Voice.Session.{
  VoiceSession, VoiceEffect, new_voice_session, described, connections_made, binary_sent,
  socket_started, url_set,
}
use stoatpp.Voice.IceServers.{turn, stun, add_ice_server}
use stoatpp.Voice.IceServers.Parts.{InHost, address, add_ice_server-address}
use stoatpp.Voice.Signals.{handle_binary_message}
use stoatpp.Voice.Signals.Descriptions.{
  description_message, describes, text_of, handle_binary_message-description_message,
}
use stoatpp.Voice.Connection.{VoiceAction, connecting, socket, binary_frame, voice_acts}
use stoatpp.Voice.Connection.Audio.{AudioStep, write, round}
use stoatpp.Tests.Sample.{sample_json}

abbrev offer : List Field
offer = text 1 (lit "offer") ∷ number 7 300 ∷ text 2 (lit "v=0") ∷ []

offer-Fits : Every Fits offer
offer-Fits = (omega arith, ((omega arith, omega arith), (omega arith, tt)))

abbrev talking : VoiceSession
talking = record new_voice_session {
  has_sub_pc = true;
  has_pub_pc = true;
  has_track = true;
  has_encoder = true;
  joined = true;
  running = true;
  has_thread = true;
}

short : length (description_message subscriber offer) < 2 ^ 64
unfolding stoatpp.Voice.Protobuf.write_message stoatpp.Voice.Protobuf.write_string
    stoatpp.Voice.Requests.write_number
short = omega arith

handle_binary_message-description_message_example :
    handle_binary_message sample_json true 5 talking (description_message subscriber offer)
    ≡ parsed (describes subscriber (text_of 2 [] offer) talking)
handle_binary_message-description_message_example =
    handle_binary_message-description_message 5 offer offer-Fits (omega arith) sample_json true
      subscriber talking short

described_offer :
    describes subscriber (text_of 2 [] offer) talking
    ≡ (talking, described subscriber (lit "v=0") (lit "offer") ∷ [])
described_offer = refl

abbrev ramp : ℕ → List ℕ
ramp zero = []
ramp (suc n) = n ∷ ramp n

-- The second of two frames is not encoded.
abbrev talk : List AudioStep
talk = write (ramp 1000) ∷ round true ∷ write (ramp 925) ∷ round false ∷ round true ∷ []

abbrev join_response : List ℕ
join_response = 0x0A ∷ 0 ∷ []

abbrev joining : List VoiceAction
joining = connecting (lit "wss://v") (lit "t") ∷ socket true (binary_frame join_response) ∷ []

abbrev joined_session : VoiceSession
joined_session = record new_voice_session { has_sub_pc = true; has_pub_pc = true; joined = true }

abbrev joining_effects : List VoiceEffect
joining_effects =
    url_set (lit "wss://v/rtc?access_token=t&protocol=8&sdk=cpp")
    ∷ socket_started
    ∷ connections_made []
    ∷ binary_sent add_track
    ∷ []

joins :
    voice_acts sample_json 5 joining new_voice_session ≡ parsed (joined_session, joining_effects)
unfolding voice_acts
joins = refl

host-InHost : Every InHost (lit "h.io")
host-InHost = ground arith

add_ice_server-address_example :
    add_ice_server
      (address (lit "turns") (lit "h.io") 443 (lit "transport=tcp"))
      (lit "u")
      (lit "p")
    ≡ (if text_eq (lit "turns") (lit "stun")
        then some (stun (lit "h.io") 443)
        else if text_eq (lit "turns") (lit "turn")
        then (if is_nil (lit "u")
            then none
            else some (turn (lit "h.io") 443 (lit "u") (lit "p") false))
        else if text_eq (lit "turns") (lit "turns")
        then (if is_nil (lit "u")
            then none
            else some (turn (lit "h.io") 443 (lit "u") (lit "p") true))
        else none)
add_ice_server-address_example =
    add_ice_server-address (lit "turns") (lit "h.io") (lit "transport=tcp") (lit "u") (lit "p") 443
      (ground arith) host-InHost (omega arith)

relay :
    add_ice_server
      (address (lit "turns") (lit "h.io") 443 (lit "transport=tcp"))
      (lit "u")
      (lit "p")
    ≡ some (turn (lit "h.io") 443 (lit "u") (lit "p") true)
unfolding stoatpp.Text.text_eq
relay = add_ice_server-address_example

png : target_ext (lit "image/png") ≡ some (lit "png")
unfolding target_ext
png = refl

effective_filename-target_ext_example :
    (effective_filename (lit "a.b.jpg") (lit "image/png") ≡ lit "a.b.png")
    × (effective_filename (lit "jpg") (lit "image/png") ≡ lit "jpg.png")
    × (effective_filename (lit "a.b.png") (lit "image/png") ≡ lit "a.b.png")
effective_filename-target_ext_example =
    effective_filename-target_ext (lit "a.b") (lit "jpg") (lit "image/png") (lit "png")
      (ground arith) png

told_by_bytes :
    effective_mime (lit "image/gif") (lit " image/webp ; q=1") (0x89 ∷ lit "PNG") ≡ lit "image/png"
unfolding effective_mime
told_by_bytes = refl

told_by_header :
    effective_mime (lit "image/gif") (lit " image/webp ; q=1") (lit "x") ≡ lit "image/webp"
unfolding effective_mime
told_by_header = refl

fetch_parts : fetch_target (lit "https://h.io/a?b") ≡ (lit "https://h.io", lit "/a?b")
unfolding fetch_target
fetch_parts = refl
