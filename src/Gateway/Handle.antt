-- ===== src/Gateway/Handle.antt =====
-- `gateway::handle_event` of src/gateway.cpp.
use stoatpp.Prelude.{ℕ, zero, suc, true, Option, none, some, List, [], ◌∷◌, if◌then◌else◌, ◌&&◌}
use stoatpp.Prelude.Int.{ℤ}
use stoatpp.Text.{Text, lit, text_eq}
use stoatpp.Json.{JsonLib, string_field, array_field, value_or}
use stoatpp.Gateway.Fields.{Built, thrown, built}
use stoatpp.Gateway.Route.{event_of}
use stoatpp.Gateway.Session.{
  Session, SessionOutcome, raw_event, dispatched, threw, exhausted, finish, and_then, send_raw,
  bare_frame, frame, ping, schedule_ping, tick, sub_ℤ,
}

module _ (J : JsonLib) where
  -- The type of an event: `none` where the value is no object or has no such string.
  abbrev pub type_of : J.Json → Option Text
  type_of j = if J.is_object j then string_field J j (lit "type") else none

  -- The events of a `Bulk`.
  abbrev pub parts : J.Json → List J.Json
  parts j = value_or (array_field J j (lit "v")) []

  -- One after another, until one throws.
  unfoldable pub handle_all :
      (J.Json → Session J → SessionOutcome J) → List J.Json → Session J → SessionOutcome J
  unfolding and_then
  handle_all handle [] s = finish J s []
  handle_all handle (j ∷ js) s = and_then J (handle j s) (handle_all handle js)

  -- Nothing where the code has no branch for the type of the event.
  abbrev pub hand_over : Session J → Option (Built J) → SessionOutcome J
  hand_over s none = finish J s []
  hand_over s (some thrown) = record { after = s; effects = []; ended = threw }
  hand_over s (some (built e)) = finish J s (dispatched e ∷ [])

module _ (J : JsonLib) (clock : ℕ → ℤ) where
  -- `Authenticated`: a ping at once, and then the heartbeat.
  unfoldable pub on_authenticated : Session J → SessionOutcome J
  unfolding send_raw
  on_authenticated s =
      let s' = record s { authenticated = true } in
      finish J (schedule_ping J (tick J s')) (ping J s' (clock s'.clock_reads))

  -- `Ping`: a `Pong` with the same data.
  unfoldable pub on_ping : Session J → J.Json → SessionOutcome J
  unfolding send_raw
  on_ping s j = finish J s (
      send_raw J s (
        if J.contains j (lit "data")
        then frame J (lit "Pong") (lit "data") (J.field j (lit "data"))
        else bare_frame J (lit "Pong")))

  -- `Pong`: the latency is the time since the ping that it answers.
  unfoldable pub on_pong : Session J → J.Json → SessionOutcome J
  on_pong s j =
      if J.contains j (lit "data") && J.is_number (J.field j (lit "data"))
      then finish J
          (record (tick J s) {
            latency_ms = sub_ℤ (clock s.clock_reads) (J.get_int64 (J.field j (lit "data")));
          })
          []
      else finish J s []

  -- All but `Bulk`.
  unfoldable pub handle_typed : Text → J.Json → Session J → SessionOutcome J
  unfolding on_authenticated on_ping on_pong event_of
  handle_typed type j s =
      if text_eq type (lit "Authenticated")
      then on_authenticated s
      else if text_eq type (lit "Ping")
      then on_ping s j
      else if text_eq type (lit "Pong")
      then on_pong s j
      else hand_over J s (event_of J s.self_user type j)

  unfoldable pub handle_event : ℕ → J.Json → Session J → SessionOutcome J
  unfolding and_then handle_all handle_typed
  handle_event zero j s = record { after = s; effects = []; ended = exhausted }
  handle_event (suc fuel) j s = elim (type_of J j) [
    | none ↦ finish J s []
    | some type ↦ and_then J (finish J s (raw_event type j ∷ [])) (
        if text_eq type (lit "Bulk")
        then handle_all J (handle_event fuel) (parts J j)
        else handle_typed type j)
  ]
