-- ===== src/Commands/Edits.antt =====
-- The listener for edited messages of src/cluster/commands.cpp, which has them dispatched again.
use stoatpp.Prelude.{◌>>=◌, Bool, Option, none, some, if◌then◌else◌, ◌&&◌, not, is_nil}
use stoatpp.Text.{Text, lit}
use stoatpp.Json.{JsonLib}
use stoatpp.Models.Channel.{channel_from_json}
use stoatpp.Events.{Message, message_from_json}
use stoatpp.Rest.Exchange.{Response, success}
use stoatpp.Cache.State.{Cache}
use stoatpp.Cache.Reads.{get_channel}

module _ (J : JsonLib) where
  -- Whether a thread is started for the changed fields of an update.
  unfoldable pub is_fetched_again : Bool → J.Json → Bool
  is_fetched_again dispatch_commands_on_edit fields =
      dispatch_commands_on_edit
      && (J.contains fields (lit "content") && J.is_string (J.field fields (lit "content")))

  abbrev in_server : Message J → Option Text → Message J
  in_server msg none = msg
  in_server msg (some server_id) = record msg { server_id = server_id }

  abbrev server_of_answer : Response J → Option Text
  server_of_answer r = if success r.status_code then (channel_from_json J r.body).server else none

  -- The channel that the cache has, if it has a server.
  abbrev cached_server : Cache J → Text → Option Text
  cached_server c channel_id = elim (get_channel J c channel_id) [
    | none ↦ none
    | some ch ↦ ch.server
  ]

  -- The server of the message's channel, from the cache or else from the service. `none` is an exception of the
  -- request.
  abbrev find_server : Cache J → Option (Response J) → Message J → Option (Message J)
  find_server c channel_answer msg = elim (cached_server c msg.channel_id) [
    | some server_id ↦ some (in_server msg (some server_id))
    | none ↦ elim channel_answer [
      | none ↦ none
      | some r ↦ some (in_server msg (server_of_answer r))
    ]
  ]

  abbrev complete_message : Cache J → Option (Response J) → Message J → Option (Message J)
  complete_message c channel_answer msg =
      if is_nil msg.server_id && not (is_nil msg.channel_id)
      then find_server c channel_answer msg
      else some msg

  abbrev message_of : Response J → Option (Message J)
  message_of r = if success r.status_code then some (message_from_json J r.body) else none

  -- The thread: the message that is dispatched, from the answers to `get_message` and `get_channel`, where `none`
  -- is an exception; it ends the thread.
  unfoldable pub edited_message :
      Cache J → Option (Response J) → Option (Response J) → Option (Message J)
  unfolding success message_from_json channel_from_json get_channel
  edited_message c message_answer channel_answer = do
    r ← message_answer
    msg ← message_of r
    complete_message c channel_answer msg
