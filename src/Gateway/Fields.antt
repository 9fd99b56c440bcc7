-- ===== src/Gateway/Fields.antt =====
-- How `gateway::handle_event` of src/gateway.cpp reads the fields of an event object.
use stoatpp.Prelude.{Option, none, some, [], if◌then◌else◌}
use stoatpp.Text.{Text, lit}
use stoatpp.Json.{JsonLib, string_field, string_list, value_or, or_else, object_field}
use stoatpp.Events.{MessageReact}
use stoatpp.Events.Event.{Event, Update, MemberUpdate, message_update, message_delete}

-- What a branch of `handle_event` makes: an event, or the exception of `get<std::string>()` on a value
-- that is not a string, or of an assignment to a field of a value that is not an object.
pub data Built (J : JsonLib) : Type 0 where
  thrown : Built J
  built : Event J → Built J

module _ (J : JsonLib) where
  -- `if (j.contains(k) && j[k].is_string()) s = j[k]`, where `s` starts empty
  abbrev pub text_or_empty : J.Json → Text → Text
  text_or_empty j k = value_or (string_field J j k) []

  -- `channel_id`, or else `channel`
  abbrev pub channel_id_of : J.Json → Text
  channel_id_of j =
      value_or (or_else (string_field J j (lit "channel_id")) (string_field J j (lit "channel"))) []

  -- `if (j.contains(k)) v = j[k]`, where `v` starts null
  abbrev pub value_or_null : J.Json → Text → J.Json
  value_or_null j k = if J.contains j k then J.field j k else J.null

  -- `if (j.contains(k)) s = j[k].get<std::string>()`: `none` is the exception.
  abbrev pub required_text : J.Json → Text → Option Text
  required_text j k =
      if J.contains j k
      then (if J.is_string (J.field j k) then some (J.get_string (J.field j k)) else none)
      else some []

  abbrev pub update_of : J.Json → Update J
  update_of j = record {
    id = text_or_empty j (lit "id");
    changes = value_or_null j (lit "data");
    clear = string_list J j (lit "clear");
  }

  abbrev pub message_update_of : J.Json → Event J
  message_update_of j =
      message_update (text_or_empty j (lit "id")) (channel_id_of j) (value_or_null j (lit "data"))

  abbrev pub message_delete_of : J.Json → Event J
  message_delete_of j = message_delete (text_or_empty j (lit "id")) (channel_id_of j)

  abbrev pub react_of : J.Json → MessageReact
  react_of j = record {
    id = text_or_empty j (lit "id");
    channel_id = channel_id_of j;
    user_id = text_or_empty j (lit "user_id");
    emoji_id = text_or_empty j (lit "emoji_id");
  }

  -- The string `k` of the object `id`
  abbrev pub key_part : J.Json → Text → Text
  key_part j k = elim (object_field J j (lit "id")) [ none ↦ [] | some key ↦ text_or_empty key k ]

  abbrev pub member_update_of : J.Json → MemberUpdate J
  member_update_of j = record {
    server_id = key_part j (lit "server");
    user_id = key_part j (lit "user");
    changes = value_or_null j (lit "data");
    clear = string_list J j (lit "clear");
  }

  -- `id`, or else `server_id`, or else `server`
  abbrev pub role_server_id : J.Json → Text
  role_server_id j =
      value_or
        (or_else (string_field J j (lit "id"))
          (or_else (string_field J j (lit "server_id")) (string_field J j (lit "server"))))
        []
