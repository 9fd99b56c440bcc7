-- ===== src/Models/Member.antt =====
-- include/stoatpp/models/member.h
use stoatpp.Prelude.{Option, none, some, List, [], if◌then◌else◌, ◌&&◌, not, is_nil}
use stoatpp.Text.{Text, lit}
use stoatpp.Json.{
  JsonLib, string_field, string_list, file_field, or_else, value_or, with_text, texts,
}

pub record Member (J : JsonLib) : Type 0 where
  pub id : Text
  pub server_id : Text
  pub nickname : Option Text
  pub avatar : Option Text
  pub roles : List Text
  pub joined_at : Text
  pub timeout : Option Text
  pub raw : J.Json

module _ (J : JsonLib) where
  -- `id_val`: the member `id`, or else `_id`, or else null
  abbrev pub id_value : J.Json → J.Json
  id_value j =
      if J.contains j (lit "id")
      then J.field j (lit "id")
      else if J.contains j (lit "_id")
      then J.field j (lit "_id")
      else J.null

  -- the user that `id_val` names: its `user` if it is an object, itself if it is a string
  abbrev pub id_user : J.Json → Option Text
  id_user v =
      if J.is_null v
      then none
      else if J.is_object v
      then string_field J v (lit "user")
      else if J.is_string v
      then some (J.get_string v)
      else none

  abbrev pub id_server : J.Json → Option Text
  id_server v = if not (J.is_null v) && J.is_object v then string_field J v (lit "server") else none

  -- `Member::from_json`: `user_id` and `server_id` override what `id` says.
  unfoldable pub member_from_json : J.Json → Member J
  member_from_json j = record {
    id = value_or (or_else (string_field J j (lit "user_id")) (id_user (id_value j))) [];
    server_id = value_or (or_else (string_field J j (lit "server_id")) (id_server (id_value j))) [];
    nickname = string_field J j (lit "nickname");
    avatar = file_field J j (lit "avatar") (lit "id") (lit "_id");
    roles = string_list J j (lit "roles");
    joined_at = value_or (string_field J j (lit "joined_at")) [];
    timeout = string_field J j (lit "timeout");
    raw = j;
  }

  -- `Member{}`
  abbrev pub no_member : Member J
  no_member = record {
    id = [];
    server_id = [];
    nickname = none;
    avatar = none;
    roles = [];
    joined_at = [];
    timeout = none;
    raw = J.null;
  }

  -- `Member::to_json`
  unfoldable pub member_to_json : Member J → J.Json
  member_to_json m =
      let j = J.with_field m.raw (lit "user_id") (J.of_text m.id) in
      let j = J.with_field j (lit "server_id") (J.of_text m.server_id) in
      let j = with_text J j (lit "nickname") m.nickname in
      let j = with_text J j (lit "avatar") m.avatar in
      let j = J.with_field j (lit "roles") (texts J m.roles) in
      let j =
        if is_nil m.joined_at
        then j
        else J.with_field j (lit "joined_at") (J.of_text m.joined_at) in
      with_text J j (lit "timeout") m.timeout
