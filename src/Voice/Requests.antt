-- ===== src/Voice/Requests.antt =====
-- The requests that `voice_connection::impl` of src/voice_connection.cpp sends, as the bytes of each.
use stoatpp.Prelude.{ℕ, List, []}
use stoatpp.Text.{Text, lit}
use stoatpp.Voice.Protobuf.{write_varint, write_key, write_string, write_message}

-- A field of wire type 0: `write_key(field_num, 0); write_varint(val);`
unfoldable pub write_number : List ℕ → ℕ → ℕ → List ℕ
unfolding write_varint write_key
write_number buffer field_num val = write_varint (write_key buffer field_num 0) val

-- `SignalTarget`
pub data SignalTarget : Type 0 where
  publisher : SignalTarget
  subscriber : SignalTarget

abbrev pub target_number : SignalTarget → ℕ
target_number publisher = 0
target_number subscriber = 1

-- `my_cid`
abbrev pub my_cid : Text
my_cid = lit "audio-track-0"

-- `send_wrapped_join_request`
unfoldable pub wrapped_join_request : List ℕ
unfolding write_number write_string write_message
wrapped_join_request =
    let info = write_string (write_number [] 1 5) 2 (lit "0.1.0") in
    let settings = write_number (write_number [] 1 1) 2 1 in
    let join = write_number (write_message (write_message [] 1 info) 2 settings) 7 0 in
    write_message (write_number [] 1 0) 2 join

-- The `SessionDescription` of both requests
unfoldable pub session_description : Text → Text → List ℕ
unfolding write_string
session_description type sdp = write_string (write_string [] 1 type) 2 sdp

-- `send_sdp_answer`
unfoldable pub sdp_answer : Text → List ℕ
unfolding session_description write_message
sdp_answer sdp = write_message [] 2 (session_description (lit "answer") sdp)

-- `send_sdp_offer`
unfoldable pub sdp_offer : Text → List ℕ
unfolding session_description write_message
sdp_offer sdp = write_message [] 1 (session_description (lit "offer") sdp)

-- `send_trickle`
unfoldable pub trickle : Text → SignalTarget → List ℕ
unfolding write_string write_number write_message
trickle cand_json target =
    write_message [] 3 (write_number (write_string [] 1 cand_json) 2 (target_number target))

-- `send_add_track`
unfoldable pub add_track : List ℕ
unfolding write_string write_number write_message
add_track =
    let described = write_string (write_string [] 1 my_cid) 2 (lit "audio") in
    write_message [] 4 (write_number (write_number described 3 0) 8 2)
