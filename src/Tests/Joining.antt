-- ===== src/Tests/Joining.antt =====
-- Join responses at concrete inputs: src/voice_connection.cpp.
use stoatpp.Prelude.{◌<◌, ◌^◌, ◌≡◌, refl, true, false, List, [], ◌∷◌, ◌++◌, map, arith, length}
use stoatpp.Text.{Text, lit}
use stoatpp.Voice.Fields.{parsed}
use stoatpp.Voice.Fields.Written.{Field, text}
use stoatpp.Voice.Session.{new_voice_session, connections_made, binary_sent}
use stoatpp.Voice.IceServers.{stun, turn}
use stoatpp.Voice.Signals.{handle_binary_message}
use stoatpp.Voice.Signals.Nested.{signal_message}
use stoatpp.Voice.Signals.Joins.{
  server_field, info_of, addressed, track_request, WellFormed, handle_binary_message-server_field,
}
use stoatpp.Tests.Sample.{sample_json}

abbrev relay : List Field
relay =
    text 1 (lit "turn:h:80?x") ∷ text 2 (lit "u") ∷ text 3 (lit "p") ∷ text 1 (lit "stun:h") ∷ []

relay-WellFormed : WellFormed 6 relay
unfolding stoatpp.Voice.Protobuf.varint_bytes
relay-WellFormed =
    ((omega arith, (omega arith, (omega arith, (omega arith, tt)))), omega arith, omega arith)

short : length (signal_message 1 (map server_field (relay ∷ []))) < 2 ^ 64
unfolding stoatpp.Voice.Protobuf.write_message stoatpp.Voice.Protobuf.write_string
short = omega arith

handle_binary_message-server_field_example :
    handle_binary_message sample_json true 6 new_voice_session
      (signal_message 1 (map server_field (relay ∷ [])))
    ≡ parsed (
      record new_voice_session {
        ice_servers = [] ++ map info_of (relay ∷ []);
        has_sub_pc = true;
        has_pub_pc = true;
        joined = true;
      },
      connections_made (addressed ([] ++ map info_of (relay ∷ [])))
          ∷ binary_sent track_request
          ∷ [],
    )
handle_binary_message-server_field_example =
    handle_binary_message-server_field 6 (relay ∷ []) (relay-WellFormed, tt) (omega arith)
      sample_json true new_voice_session short

relays :
    addressed (map info_of (relay ∷ []))
    ≡ turn (lit "h") 80 (lit "u") (lit "p") false ∷ stun (lit "h") 3478 ∷ []
unfolding stoatpp.Voice.IceServers.add_ice_server stoatpp.Text.text_eq
relays = refl
