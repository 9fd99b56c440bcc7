-- ===== src/Gateway/Life.antt =====
-- What moves the gateway of src/gateway.cpp: the calls of a bot, the callbacks of the WebSocket, its worker,
-- its heartbeat and its watchdog. Each body runs as one step, but for `on_disconnected`, which is two.
use stoatpp.Prelude.{
  ℕ, suc, ◌-◌, ◌/◌, Bool, true, false, Option, none, some, List, [], ◌∷◌, ◌++◌, if◌then◌else◌, ◌||◌,
  ◌==◌, ltb, not, last?, get_elem?, take, drop,
}
use stoatpp.Prelude.Int.{ℤ, pos}
use stoatpp.Text.{Text, lit, text_eq}
use stoatpp.Json.{JsonLib, value_or}
use stoatpp.Models.User.{User, user_from_json, no_user}
use stoatpp.Events.Event.{logout}
use stoatpp.Rest.Numerals.{to_string}
use stoatpp.Rest.Exchange.{Response, success}
use stoatpp.Gateway.Session.{
  Session, SessionOutcome, dispatched, started_at, started, stopped, finish, send_raw, authenticate,
  schedule_ping, beat, begin_typing, end_typing, subscribe, join_voice_channel, leave_voice_channel,
}
use stoatpp.Gateway.Handle.{type_of, handle_event}

-- The fields of `ClientConfig` that the gateway reads, and the bot's token.
pub record GatewayConfig : Type 0 where
  pub token : Text
  pub ws_url : Text
  pub ws_version : ℤ
  pub ws_format : Text
  pub ws_auth_in_url : Bool

abbrev ends_with_slash : Text → Bool
ends_with_slash url = elim (last? url) [ none ↦ false | some c ↦ c == b'/' ]

-- The address to connect to.
unfoldable pub connect_url : GatewayConfig → Text
unfolding to_string
connect_url cfg =
    let base = if ends_with_slash cfg.ws_url then cfg.ws_url else cfg.ws_url ++ lit "/" in
    let url =
      base ++ lit "?version=" ++ to_string cfg.ws_version ++ lit "&format=" ++ cfg.ws_format in
    if cfg.ws_auth_in_url then url ++ lit "&token=" ++ cfg.token else url

-- The types that the worker handles itself; each other event has a thread of its own.
abbrev pub is_handled_by_worker : Text → Bool
is_handled_by_worker type =
    text_eq type (lit "Ping")
    || text_eq type (lit "Pong")
    || text_eq type (lit "Authenticated")
    || text_eq type (lit "Ready")

-- What can happen next. `lost`: the ready state of the socket leaves `Open` before its callback runs.
pub data GatewayAction (J : JsonLib) : Type 0 where
  connects : Option (Response J) → ℕ → GatewayAction J
  disconnects : GatewayAction J
  receives : Text → GatewayAction J
  opens : ℕ → GatewayAction J
  lost : GatewayAction J
  closes : GatewayAction J
  stops_heartbeat : GatewayAction J
  watchdog_wakes : ℕ → ℕ → GatewayAction J
  works : ℕ → GatewayAction J
  thread_wakes : ℕ → ℕ → GatewayAction J
  beats : GatewayAction J
  types : Text → GatewayAction J
  stops_typing : Text → GatewayAction J
  subscribes : Text → GatewayAction J
  joins_voice : Text → GatewayAction J
  leaves_voice : Text → GatewayAction J

module _ (J : JsonLib) (clock : ℕ → ℤ) (cfg : GatewayConfig) where
  -- `connect`, with the answer to `GET /users/@me` (`none`: an exception) and the time. It starts the watchdog.
  unfoldable pub connect : Option (Response J) → ℕ → Session J → SessionOutcome J
  unfolding success connect_url
  connect me now s =
      let self : User J = elim me [
        | none ↦ s.self_user
        | some r ↦ if success r.status_code then user_from_json J r.body else s.self_user
      ] in
      finish J (record s { self_user = self; last_connected_time = now; watchdog_running = true })
        (started_at (connect_url cfg) ∷ [])

  unfoldable pub disconnect : Session J → SessionOutcome J
  disconnect s =
      finish J
        (record s { watchdog_running = false; ping_thread_running = false; authenticated = false })
        (if s.connected then stopped ∷ [] else [])

  unfoldable pub on_message_received : Text → Session J → SessionOutcome J
  on_message_received raw s = finish J (record s { event_queue = s.event_queue ++ raw ∷ [] }) []

  -- The socket opens at a time.
  unfoldable pub on_connected : ℕ → Session J → SessionOutcome J
  unfolding send_raw
  on_connected now s =
      let opened = record s { connected = true; last_connected_time = now } in
      if not cfg.ws_auth_in_url
      then finish J opened (authenticate J opened cfg.token)
      else finish J (schedule_ping J (record opened { authenticated = true })) []

  -- The socket has closed: the two steps of `on_disconnected`, between which the worker and the threads may run.
  unfoldable pub lose_authentication : Session J → SessionOutcome J
  lose_authentication s = finish J (record s { connected = false; authenticated = false }) []

  unfoldable pub stop_heartbeat : Session J → SessionOutcome J
  stop_heartbeat s = finish J (record s { ping_thread_running = false }) (dispatched logout ∷ [])

  -- A round of the watchdog at a time, which reads the clock again after a restart.
  unfoldable pub watchdog_round : ℕ → ℕ → Session J → SessionOutcome J
  unfolding send_raw
  watchdog_round now later s =
      let elapsed = (now - s.last_connected_time) / 1000 in
      if not s.watchdog_running
      then finish J s []
      else if not s.connected
      then (if ltb 20 elapsed
          then finish J (record s { last_connected_time = later }) (stopped ∷ started ∷ [])
          else finish J s [])
      else if not s.authenticated
      then (if ltb 15 elapsed
          then finish J (record s { last_connected_time = now }) (authenticate J s cfg.token)
          else finish J s [])
      else finish J s []

  -- What the worker does with a text, once it is parsed: what it cannot parse it logs and drops. The number
  -- is the fuel of `handle_event`.
  unfoldable pub handle_parsed : ℕ → Option J.Json → Session J → SessionOutcome J
  unfolding handle_event
  handle_parsed fuel none s = finish J s []
  handle_parsed fuel (some j) s =
      if is_handled_by_worker (value_or (type_of J j) [])
      then handle_event J clock fuel j s
      else finish J (record s { threads = s.threads ++ j ∷ [] }) []

  unfoldable pub take_front : ℕ → List Text → Session J → SessionOutcome J
  unfolding handle_parsed
  take_front fuel [] s = finish J s []
  take_front fuel (raw ∷ queue) s =
      handle_parsed fuel (J.parse raw) (record s { event_queue = queue })

  -- The worker takes the front of the queue.
  unfoldable pub worker_round : ℕ → Session J → SessionOutcome J
  unfolding take_front
  worker_round fuel s = take_front fuel s.event_queue s

  unfoldable pub handle_thread : ℕ → Option J.Json → Session J → SessionOutcome J
  unfolding handle_event
  handle_thread fuel none s = finish J s []
  handle_thread fuel (some j) s = handle_event J clock fuel j s

  -- The i-th of the detached threads runs.
  unfoldable pub thread_round : ℕ → ℕ → Session J → SessionOutcome J
  unfolding handle_thread
  thread_round fuel i s =
      handle_thread fuel (get_elem? s.threads i)
        (record s { threads = take i s.threads ++ drop (suc i) s.threads })

  unfoldable pub act : GatewayAction J → Session J → SessionOutcome J
  unfolding connect disconnect on_message_received on_connected lose_authentication stop_heartbeat
      watchdog_round worker_round thread_round beat send_raw
  act (connects me now) s = connect me now s
  act disconnects s = disconnect s
  act (receives raw) s = on_message_received raw s
  act (opens now) s = on_connected now s
  act lost s = finish J (record s { connected = false }) []
  act closes s = lose_authentication s
  act stops_heartbeat s = stop_heartbeat s
  act (watchdog_wakes now later) s = watchdog_round now later s
  act (works fuel) s = worker_round fuel s
  act (thread_wakes fuel i) s = thread_round fuel i s
  act beats s = beat J clock s
  act (types channel_id) s = finish J s (begin_typing J s channel_id)
  act (stops_typing channel_id) s = finish J s (end_typing J s channel_id)
  act (subscribes server_id) s = finish J s (subscribe J s server_id)
  act (joins_voice channel_id) s = finish J s (join_voice_channel J s channel_id)
  act (leaves_voice channel_id) s = finish J s (leave_voice_channel J s channel_id)

  -- A run: the state that actions lead to, one after another, whether or not they throw.
  unfoldable pub acts : List (GatewayAction J) → Session J → Session J
  unfolding act
  acts [] s = s
  acts (a ∷ more) s = acts more (act a s).after

-- `gateway::gateway`
abbrev pub new_session : (J : JsonLib) → Session J
new_session J = record {
  connected = false;
  authenticated = false;
  latency_ms = pos 0;
  self_user = no_user J;
  ping_thread_running = false;
  watchdog_running = false;
  last_connected_time = 0;
  event_queue = [];
  threads = [];
  clock_reads = 0;
}
