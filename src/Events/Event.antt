-- ===== src/Events/Event.antt =====
-- The other event structures of include/stoatpp/event_handler.h, as one type with a constructor for each
-- kind of event that the dispatcher knows.
use stoatpp.Prelude.{Bool, Option, List}
use stoatpp.Text.{Text}
use stoatpp.Json.{JsonLib}
use stoatpp.Models.Role.{Role}
use stoatpp.Models.Member.{Member}
use stoatpp.Models.Server.{Server}
use stoatpp.Models.User.{User}
use stoatpp.Models.Channel.{Channel}
use stoatpp.Models.Emoji.{Emoji}
use stoatpp.Events.{Message, MessageReact}

pub record Ready (J : JsonLib) : Type 0 where
  pub user : User J
  pub users : List (User J)
  pub servers : List (Server J)
  pub channels : List (Channel J)
  pub members : List (Member J)
  pub emojis : List (Emoji J)

-- A partial object: its id, the changed fields, and the names of the removed ones.
pub record Update (J : JsonLib) : Type 0 where
  pub id : Text
  pub changes : J.Json
  pub clear : List Text

pub record MemberUpdate (J : JsonLib) : Type 0 where
  pub server_id : Text
  pub user_id : Text
  pub changes : J.Json
  pub clear : List Text

pub record RoleCreate (J : JsonLib) : Type 0 where
  pub server_id : Text
  pub role_id : Text
  pub role : Role J

pub record RoleUpdate (J : JsonLib) : Type 0 where
  pub server_id : Text
  pub role_id : Text
  pub changes : J.Json
  pub clear : List Text

pub data Event (J : JsonLib) : Type 0 where
  ready : Ready J → Event J
  message : Message J → Event J
  -- id, channel, changed fields
  message_update : Text → Text → J.Json → Event J
  message_delete : Text → Text → Event J
  message_react : MessageReact → Event J
  message_unreact : MessageReact → Event J
  -- the channel (the server) and the whole event object
  channel_create : Channel J → J.Json → Event J
  channel_update : Update J → Event J
  channel_delete : Text → Event J
  server_create : Server J → J.Json → Event J
  server_update : Update J → Event J
  server_delete : Text → Event J
  -- server, user
  server_member_join : Text → Text → Member J → Event J
  server_member_leave : Text → Text → Event J
  server_member_update : MemberUpdate J → Event J
  user_update : Update J → Event J
  server_role_create : RoleCreate J → Event J
  server_role_update : RoleUpdate J → Event J
  server_role_delete : Text → Text → Event J
  -- user, key, value
  user_settings_update : Text → Text → J.Json → Event J
  -- user, status, status text
  user_presence_update : Text → Text → Option Text → Event J
  -- channel, webhook, kind
  webhook_update : Text → Text → Text → Event J
  -- channel, user, joined
  voice_state_update : Text → Text → Bool → Event J
  channel_start_typing : Text → Text → Event J
  channel_stop_typing : Text → Text → Event J
  error : Text → Event J
  logout : Event J
