-- ===== src/Voice/Signals.antt =====
-- `handle_binary_message` and `parse_join_response` of src/voice_connection.cpp.
pub mod Descriptions
pub mod Nested
pub mod Joins
use stoatpp.Prelude.{
  ℕ, suc, ◌%◌, ◌^◌, Bool, true, false, Option, none, some, List, [], ◌∷◌, ◌++◌, if◌then◌else◌, ◌&&◌,
  ◌==◌, not, is_nil, length,
}
use stoatpp.Text.{Text, lit, text_eq}
use stoatpp.Json.{JsonLib}
use stoatpp.Voice.Protobuf.{PbReader, read_varint, read_string, skip_field, enter}
use stoatpp.Voice.Requests.{SignalTarget, publisher, subscriber, my_cid, add_track}
use stoatpp.Voice.Fields.{
  Parsed, parsed, undefined, terminated, defined, ◌>>=◌, Step, read_fields, store_text, skip,
}
use stoatpp.Voice.Steps.{
  is_field, sdp_step, store_target, trickle_step, track_step, nested, store_sid, published_step,
  ice_step, no_info, store_info, join_step,
}
use stoatpp.Voice.Session.{
  IceServerInfo, VoiceSession, VoiceEffect, binary_sent, connections_made, described,
  candidate_added, track_added, rtc_servers,
}

-- The rest of `parse_join_response`.
abbrev pub on_joined : VoiceSession → List IceServerInfo → VoiceSession × List VoiceEffect
on_joined s infos = (
  record s { ice_servers = infos; has_sub_pc = true; has_pub_pc = true; joined = true },
  connections_made (rtc_servers infos) ∷ binary_sent add_track ∷ [],
)

-- `initialize_publisher_track`, with the outcome of `opus_encoder_create`: a null `pub_pc` is used, and a thread
-- that is not joined must not be replaced.
abbrev pub on_published : Bool → VoiceSession → Text → Parsed (VoiceSession × List VoiceEffect)
on_published opus_ok s sid =
    if not s.has_pub_pc
    then undefined
    else if s.has_thread
    then terminated
    else parsed (
      record s {
        track_sid = sid;
        has_track = true;
        has_encoder = opus_ok;
        running = true;
        has_thread = true;
      },
      track_added sid ∷ [],
    )

abbrev peer : VoiceSession → SignalTarget → Bool
peer s publisher = s.has_pub_pc
peer s subscriber = s.has_sub_pc

-- `if (pc) pc->setRemoteDescription(rtc::Description(sdp, kind));`
abbrev pub on_description :
    VoiceSession → SignalTarget → Text → Text → VoiceSession × List VoiceEffect
on_description s target kind sdp = (s, if peer s target then described target sdp kind ∷ [] else [])

abbrev pub and_effects :
    List VoiceEffect → VoiceSession × List VoiceEffect → VoiceSession × List VoiceEffect
and_effects effects (s, more) = (s, effects ++ more)

module _ (J : JsonLib) where
  -- `cand_j.value(k, "")`: `none` is an exception.
  abbrev value : J.Json → Text → Option Text
  value j k =
      if not (J.is_object j)
      then none
      else if not (J.contains j k)
      then some []
      else if J.is_string (J.field j k)
      then some (J.get_string (J.field j k))
      else none

  abbrev target_of : ℕ → Option SignalTarget
  target_of n = if n == 1 then some subscriber else if n == 0 then some publisher else none

  abbrev add_candidate : VoiceSession → ℕ → Option Text → Option Text → List VoiceEffect
  add_candidate s target (some line) (some mid) = elim (target_of target) [
    | none ↦ []
    | some t ↦ if not (is_nil line) && peer s t then candidate_added t line mid ∷ [] else []
  ]
  add_candidate s target _ _ = []

  -- A candidate that does not parse is passed over.
  unfoldable pub on_trickle : VoiceSession → Text × ℕ → VoiceSession × List VoiceEffect
  on_trickle s (cand, target) = (
    s,
    if is_nil cand then [] else elim (J.parse cand) as (λ o. List VoiceEffect) [
      | none ↦ []
      | some j ↦ add_candidate s target (value j (lit "candidate")) (value j (lit "sdpMid"))
    ],
  )

  abbrev pub on_track : Bool → VoiceSession → Text × Text → Parsed (VoiceSession × List VoiceEffect)
  on_track opus_ok s (cid, sid) =
      if text_eq cid my_cid && not (is_nil sid) then on_published opus_ok s sid else parsed (s, [])

  -- What each signal of the server does, read from its message. The number is the fuel of the loops inside.
  abbrev Signal : Type 0
  Signal =
      ℕ
      → VoiceSession × List VoiceEffect
      → PbReader
      → Parsed ((VoiceSession × List VoiceEffect) × PbReader)

  unfoldable pub join_signal : Signal
  unfolding nested join_step rtc_servers add_track
  join_signal fuel (s, effects) r = do
    (infos, after) ← nested (join_step fuel) fuel s.ice_servers r
    parsed (and_effects effects (on_joined s infos), after)

  unfoldable pub description_signal : SignalTarget → Text → Signal
  unfolding nested sdp_step
  description_signal target kind fuel (s, effects) r = do
    (d, after) ← nested sdp_step fuel ([], []) r
    parsed (and_effects effects (on_description s target kind d.1), after)

  unfoldable pub trickle_signal : Signal
  unfolding nested trickle_step on_trickle
  trickle_signal fuel (s, effects) r = do
    (c, after) ← nested trickle_step fuel ([], 0) r
    parsed (and_effects effects (on_trickle s c), after)

  unfoldable pub published_signal : Bool → Signal
  unfolding nested published_step
  published_signal opus_ok fuel (s, effects) r = do
    (t, after) ← nested (published_step fuel) fuel ([], []) r
    p ← on_track opus_ok s t
    parsed (and_effects effects p, after)

  unfoldable pub signal_step : Bool → ℕ → Step (VoiceSession × List VoiceEffect)
  unfolding skip_field join_signal description_signal trickle_signal published_signal
  signal_step opus_ok fuel field wire p r =
      if is_field field wire 1 2
      then join_signal fuel p r
      else if is_field field wire 3 2
      then description_signal subscriber (lit "offer") fuel p r
      else if is_field field wire 2 2
      then description_signal publisher (lit "answer") fuel p r
      else if is_field field wire 4 2
      then trickle_signal fuel p r
      else if is_field field wire 6 2
      then published_signal opus_ok fuel p r
      else skip wire p r

  -- `handle_binary_message`; a zero stands behind the bytes of a `std::string`.
  unfoldable pub handle_binary_message :
      Bool → ℕ → VoiceSession → List ℕ → Parsed (VoiceSession × List VoiceEffect)
  unfolding read_fields signal_step
  handle_binary_message opus_ok fuel s bytes =
      read_fields (signal_step opus_ok fuel) fuel (s, [])
        (record { bytes = bytes ++ 0 ∷ []; size = length bytes; offset = 0 })
