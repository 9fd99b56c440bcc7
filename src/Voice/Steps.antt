-- ===== src/Voice/Steps.antt =====
-- The readers of the messages inside of signals, in `handle_binary_message` and `parse_join_response` of
-- src/voice_connection.cpp.
use stoatpp.Prelude.{ℕ, ◌%◌, ◌^◌, Bool, List, [], ◌∷◌, ◌++◌, if◌then◌else◌, ◌&&◌, ◌==◌}
use stoatpp.Text.{Text}
use stoatpp.Voice.Protobuf.{PbReader, read_varint, read_string, skip_field, enter}
use stoatpp.Voice.Fields.{Parsed, parsed, defined, ◌>>=◌, Step, read_fields, store_text, skip}
use stoatpp.Voice.Session.{IceServerInfo}

-- `field == n && wire == w`
abbrev pub is_field : ℕ → ℕ → ℕ → ℕ → Bool
is_field field wire n w = wire == w && field == n

-- A session description: its type and its text.
unfoldable pub sdp_step : Step (Text × Text)
unfolding read_string skip_field
sdp_step field wire (type, sdp) r =
    if is_field field wire 1 2
    then store_text (λ s. (s, sdp)) r
    else if is_field field wire 2 2
    then store_text (λ s. (type, s)) r
    else skip wire (type, sdp) r

-- A candidate: its text and its target, an `int`.
abbrev pub store_target : Text → PbReader → Parsed ((Text × ℕ) × PbReader)
store_target cand r = do (v, after) ← defined (read_varint r); parsed ((cand, v % 2 ^ 32), after)

unfoldable pub trickle_step : Step (Text × ℕ)
unfolding read_varint read_string skip_field
trickle_step field wire (cand, target) r =
    if is_field field wire 1 2
    then store_text (λ s. (s, target)) r
    else if is_field field wire 2 0
    then store_target cand r
    else skip wire (cand, target) r

-- The id of a track.
unfoldable pub track_step : Step Text
unfolding read_string skip_field
track_step field wire sid r =
    if is_field field wire 1 2 then store_text (λ s. s) r else skip wire sid r

-- The message that the next field holds, read by a loop of its own.
unfoldable pub nested : {A : Type 0} → Step A → ℕ → A → PbReader → Parsed (A × PbReader)
unfolding enter read_fields
nested step fuel a r = do
  (inner, after) ← defined (enter r)
  b ← read_fields step fuel a inner
  parsed (b, after)

-- A published track: its cid, and its sid.
abbrev pub store_sid : ℕ → Text × Text → PbReader → Parsed ((Text × Text) × PbReader)
store_sid fuel (cid, sid) r = do
  (new, after) ← nested track_step fuel sid r
  parsed ((cid, new), after)

unfoldable pub published_step : ℕ → Step (Text × Text)
unfolding read_string skip_field nested track_step
published_step fuel field wire (cid, sid) r =
    if is_field field wire 1 2
    then store_text (λ s. (s, sid)) r
    else if is_field field wire 2 2
    then store_sid fuel (cid, sid) r
    else skip wire (cid, sid) r

-- An ICE server.
unfoldable pub ice_step : Step IceServerInfo
unfolding read_string skip_field
ice_step field wire info r =
    if is_field field wire 1 2
    then store_text (λ s. record info { urls = info.urls ++ s ∷ [] }) r
    else if is_field field wire 2 2
    then store_text (λ s. record info { username = s }) r
    else if is_field field wire 3 2
    then store_text (λ s. record info { credential = s }) r
    else skip wire info r

abbrev pub no_info : IceServerInfo
no_info = record { urls = []; username = []; credential = [] }

-- The ICE servers of a join response, behind those that are known.
abbrev pub store_info : ℕ → List IceServerInfo → PbReader → Parsed (List IceServerInfo × PbReader)
store_info fuel infos r = do
  (info, after) ← nested ice_step fuel no_info r
  parsed (infos ++ info ∷ [], after)

unfoldable pub join_step : ℕ → Step (List IceServerInfo)
unfolding skip_field nested ice_step
join_step fuel field wire infos r =
    if is_field field wire 5 2 then store_info fuel infos r else skip wire infos r
