-- ===== src/Dispatcher/Kinds.antt =====
-- The kinds of event, each with a vector of handlers in include/stoatpp/event_handler.h, and the user whom
-- the filter `should_ignore_user` is asked about.
use stoatpp.Prelude.{ℕ, Option, none, some, Bool, ◌==◌}
use stoatpp.Text.{Text}
use stoatpp.Json.{JsonLib}
use stoatpp.Events.Event.{
  Event, ready, message, message_update, message_delete, message_react, message_unreact,
  channel_create, channel_update, channel_delete, server_create, server_update, server_delete,
  server_member_join, server_member_leave, server_member_update, user_update, server_role_create,
  server_role_update, server_role_delete, user_settings_update, user_presence_update,
  webhook_update, voice_state_update, channel_start_typing, channel_stop_typing, error, logout,
}

pub data Kind : Type 0 where
  ready_handlers : Kind
  message_handlers : Kind
  message_update_handlers : Kind
  message_delete_handlers : Kind
  message_react_handlers : Kind
  message_unreact_handlers : Kind
  channel_create_handlers : Kind
  channel_update_handlers : Kind
  channel_delete_handlers : Kind
  server_create_handlers : Kind
  server_update_handlers : Kind
  server_delete_handlers : Kind
  server_member_join_handlers : Kind
  server_member_leave_handlers : Kind
  server_member_update_handlers : Kind
  server_role_create_handlers : Kind
  server_role_update_handlers : Kind
  server_role_delete_handlers : Kind
  user_update_handlers : Kind
  user_settings_update_handlers : Kind
  user_presence_update_handlers : Kind
  channel_start_typing_handlers : Kind
  channel_stop_typing_handlers : Kind
  webhook_update_handlers : Kind
  voice_state_update_handlers : Kind
  error_handlers : Kind
  logout_handlers : Kind

-- A number for each kind, to compare kinds by.
abbrev number_of : Kind → ℕ
number_of ready_handlers = 0
number_of message_handlers = 1
number_of message_update_handlers = 2
number_of message_delete_handlers = 3
number_of message_react_handlers = 4
number_of message_unreact_handlers = 5
number_of channel_create_handlers = 6
number_of channel_update_handlers = 7
number_of channel_delete_handlers = 8
number_of server_create_handlers = 9
number_of server_update_handlers = 10
number_of server_delete_handlers = 11
number_of server_member_join_handlers = 12
number_of server_member_leave_handlers = 13
number_of server_member_update_handlers = 14
number_of server_role_create_handlers = 15
number_of server_role_update_handlers = 16
number_of server_role_delete_handlers = 17
number_of user_update_handlers = 18
number_of user_settings_update_handlers = 19
number_of user_presence_update_handlers = 20
number_of channel_start_typing_handlers = 21
number_of channel_stop_typing_handlers = 22
number_of webhook_update_handlers = 23
number_of voice_state_update_handlers = 24
number_of error_handlers = 25
number_of logout_handlers = 26

-- Whether two names are of the same vector.
unfoldable pub same_kind : Kind → Kind → Bool
same_kind k l = number_of k == number_of l

module _ (J : JsonLib) where
  -- The handlers that a `dispatch_` function calls.
  unfoldable pub kind_of : Event J → Kind
  kind_of (ready x0) = ready_handlers
  kind_of (message x0) = message_handlers
  kind_of (message_update x0 x1 x2) = message_update_handlers
  kind_of (message_delete x0 x1) = message_delete_handlers
  kind_of (message_react x0) = message_react_handlers
  kind_of (message_unreact x0) = message_unreact_handlers
  kind_of (channel_create x0 x1) = channel_create_handlers
  kind_of (channel_update x0) = channel_update_handlers
  kind_of (channel_delete x0) = channel_delete_handlers
  kind_of (server_create x0 x1) = server_create_handlers
  kind_of (server_update x0) = server_update_handlers
  kind_of (server_delete x0) = server_delete_handlers
  kind_of (server_member_join x0 x1 x2) = server_member_join_handlers
  kind_of (server_member_leave x0 x1) = server_member_leave_handlers
  kind_of (server_member_update x0) = server_member_update_handlers
  kind_of (user_update x0) = user_update_handlers
  kind_of (server_role_create x0) = server_role_create_handlers
  kind_of (server_role_update x0) = server_role_update_handlers
  kind_of (server_role_delete x0 x1) = server_role_delete_handlers
  kind_of (user_settings_update x0 x1 x2) = user_settings_update_handlers
  kind_of (user_presence_update x0 x1 x2) = user_presence_update_handlers
  kind_of (webhook_update x0 x1 x2) = webhook_update_handlers
  kind_of (voice_state_update x0 x1 x2) = voice_state_update_handlers
  kind_of (channel_start_typing x0 x1) = channel_start_typing_handlers
  kind_of (channel_stop_typing x0 x1) = channel_stop_typing_handlers
  kind_of (error x0) = error_handlers
  kind_of logout = logout_handlers

  -- The user whom the filter is asked about, for the events that are filtered.
  unfoldable pub subject : Event J → Option Text
  subject (message m) = some m.author.id
  subject (message_react r) = some r.user_id
  subject (message_unreact r) = some r.user_id
  subject (server_member_join server_id user_id m) = some user_id
  subject (server_member_leave server_id user_id) = some user_id
  subject (server_member_update u) = some u.user_id
  subject (user_update u) = some u.id
  subject (voice_state_update channel_id user_id joined) = some user_id
  subject (channel_start_typing channel_id user_id) = some user_id
  subject (channel_stop_typing channel_id user_id) = some user_id
  subject _ = none
