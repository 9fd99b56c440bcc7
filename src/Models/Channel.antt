-- ===== src/Models/Channel.antt =====
-- include/stoatpp/models/channel.h
use stoatpp.Prelude.{Bool, false, Option, none, some, [], if◌then◌else◌, ◌&&◌, not}
use stoatpp.Text.{Text, lit}
use stoatpp.Json.{JsonLib, string_field, bool_field, id_field, value_or, with_text, with_json}

pub record Channel (J : JsonLib) : Type 0 where
  pub id : Text
  pub channel_type : Text
  pub server : Option Text
  pub name : Option Text
  pub description : Option Text
  pub icon : Option Text
  pub nsfw : Bool
  pub default_permissions : Option J.Json
  pub role_permissions : Option J.Json
  pub raw : J.Json

module _ (J : JsonLib) where
  -- a string, or an object with a string under `id`
  abbrev pub icon_of : J.Json → Option Text
  icon_of j =
      if J.contains j (lit "icon") && not (J.is_null (J.field j (lit "icon")))
      then (let v = J.field j (lit "icon") in
          if J.is_string v
          then some (J.get_string v)
          else if J.is_object v
          then string_field J v (lit "id")
          else none)
      else none

  -- `j.contains(k)`, and the value
  abbrev pub any_field : J.Json → Text → Option J.Json
  any_field j k = if J.contains j k then some (J.field j k) else none

  -- `Channel::from_json`
  unfoldable pub channel_from_json : J.Json → Channel J
  channel_from_json j = record {
    id = value_or (id_field J j) [];
    channel_type = value_or (string_field J j (lit "channel_type")) [];
    server = string_field J j (lit "server");
    name = string_field J j (lit "name");
    description = string_field J j (lit "description");
    icon = icon_of j;
    nsfw = value_or (bool_field J j (lit "nsfw")) false;
    default_permissions = any_field j (lit "default_permissions");
    role_permissions = any_field j (lit "role_permissions");
    raw = j;
  }

  -- `Channel::to_json`
  unfoldable pub channel_to_json : Channel J → J.Json
  channel_to_json c =
      let j = J.with_field c.raw (lit "id") (J.of_text c.id) in
      let j = J.with_field j (lit "channel_type") (J.of_text c.channel_type) in
      let j = with_text J j (lit "server") c.server in
      let j = with_text J j (lit "name") c.name in
      let j = with_text J j (lit "description") c.description in
      let j = with_text J j (lit "icon") c.icon in
      let j = J.with_field j (lit "nsfw") (J.of_bool c.nsfw) in
      let j = with_json J j (lit "default_permissions") c.default_permissions in
      with_json J j (lit "role_permissions") c.role_permissions
