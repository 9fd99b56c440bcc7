-- ===== src/Gateway/Session.antt =====
-- The state of `gateway::impl` of src/gateway.cpp, what the gateway does to the outside, and the frames that
-- it sends.
use stoatpp.Prelude.{ℕ, ◌+◌, Bool, true, List, [], ◌∷◌, ◌++◌, if◌then◌else◌, ◌&&◌}
use stoatpp.Prelude.Int.{ℤ, sub_ℕ, pos_part, neg_part}
use stoatpp.Text.{Text, lit}
use stoatpp.Json.{JsonLib}
use stoatpp.Models.User.{User}
use stoatpp.Events.Event.{Event}

-- The WebSocket itself is a library's; `connected` is `getReadyState() == Open`. `threads` holds the events
-- that detached threads are to handle, and `clock_reads` counts the readings of the system clock.
pub record Session (J : JsonLib) : Type 0 where
  pub connected : Bool
  pub authenticated : Bool
  pub latency_ms : ℤ
  pub self_user : User J
  pub ping_thread_running : Bool
  pub watchdog_running : Bool
  pub last_connected_time : ℕ
  pub event_queue : List Text
  pub threads : List J.Json
  pub clock_reads : ℕ

-- What the outside sees: a frame to `ws.send`, a call of `dispatch_raw_event`, a call of another
-- dispatch function, `ws.setUrl` with `ws.start`, `ws.start`, `ws.stop`.
pub data GatewayEffect (J : JsonLib) : Type 0 where
  sent : J.Json → GatewayEffect J
  raw_event : Text → J.Json → GatewayEffect J
  dispatched : Event J → GatewayEffect J
  started_at : Text → GatewayEffect J
  started : GatewayEffect J
  stopped : GatewayEffect J

-- How a call ends: it returns, it throws, or (in the model only) its fuel runs out.
pub data End : Type 0 where
  done : End
  threw : End
  exhausted : End

pub record SessionOutcome (J : JsonLib) : Type 0 where
  pub after : Session J
  pub effects : List (GatewayEffect J)
  pub ended : End

module _ (J : JsonLib) where
  abbrev pub finish : Session J → List (GatewayEffect J) → SessionOutcome J
  finish s effects = record { after = s; effects = effects; ended = done }

  -- What follows runs in the state that is left, unless an exception was thrown.
  unfoldable pub glue :
      List (GatewayEffect J) → End → Session J → SessionOutcome J → SessionOutcome J
  glue effects done s o = record o { effects = effects ++ o.effects }
  glue effects e s o = record { after = s; effects = effects; ended = e }

  unfoldable pub and_then : SessionOutcome J → (Session J → SessionOutcome J) → SessionOutcome J
  unfolding glue
  and_then o f = glue o.effects o.ended o.after (f o.after)

  -- `send_raw`
  unfoldable pub send_raw : Session J → J.Json → List (GatewayEffect J)
  send_raw s payload = if s.connected then sent payload ∷ [] else []

  -- `nlohmann::json{{"type", type}}` and `{{"type", type}, {k, v}}`
  abbrev pub bare_frame : Text → J.Json
  bare_frame type = J.with_field J.object (lit "type") (J.of_text type)

  abbrev pub frame : Text → Text → J.Json → J.Json
  frame type k v = J.with_field (bare_frame type) k v

  abbrev pub authenticate : Session J → Text → List (GatewayEffect J)
  authenticate s token = send_raw s (frame (lit "Authenticate") (lit "token") (J.of_text token))

  abbrev pub ping : Session J → ℤ → List (GatewayEffect J)
  ping s time = send_raw s (frame (lit "Ping") (lit "data") (J.of_int time))

  abbrev pub begin_typing : Session J → Text → List (GatewayEffect J)
  begin_typing s channel_id =
      send_raw s (frame (lit "BeginTyping") (lit "channel") (J.of_text channel_id))

  abbrev pub end_typing : Session J → Text → List (GatewayEffect J)
  end_typing s channel_id =
      send_raw s (frame (lit "EndTyping") (lit "channel") (J.of_text channel_id))

  abbrev pub subscribe : Session J → Text → List (GatewayEffect J)
  subscribe s server_id =
      send_raw s (frame (lit "Subscribe") (lit "server_id") (J.of_text server_id))

  abbrev pub join_voice_channel : Session J → Text → List (GatewayEffect J)
  join_voice_channel s channel_id =
      send_raw s (frame (lit "ChannelVoice") (lit "id") (J.of_text channel_id))

  -- The channel is not used: the frame holds a null.
  abbrev pub leave_voice_channel : Session J → Text → List (GatewayEffect J)
  leave_voice_channel s channel_id = send_raw s (frame (lit "ChannelVoice") (lit "id") J.null)

  -- The first part of `schedule_ping`; the body of its thread is `beat`.
  abbrev pub schedule_ping : Session J → Session J
  schedule_ping s = record s { ping_thread_running = true }

  -- A reading of the system clock, in milliseconds.
  abbrev pub tick : Session J → Session J
  tick s = record s { clock_reads = s.clock_reads + 1 }

  -- A round of the heartbeat thread.
  unfoldable pub beat : (ℕ → ℤ) → Session J → SessionOutcome J
  unfolding send_raw
  beat clock s =
      if s.connected && s.authenticated
      then finish (tick s) (ping s (clock s.clock_reads))
      else finish s []

-- `a - b`
abbrev pub sub_ℤ : ℤ → ℤ → ℤ
sub_ℤ a b = sub_ℕ (pos_part a + neg_part b) (pos_part b + neg_part a)
