-- ===== src/Events.antt =====
-- include/stoatpp/event_handler.h: the events, and `Message::from_json` of src/event_handler.cpp.
pub mod Event
use stoatpp.Prelude.{Bool, false, Option, none, some, List, [], ◌∷◌, if◌then◌else◌, ◌&&◌}
use stoatpp.Text.{Text, lit}
use stoatpp.Json.{
  JsonLib, string_field, bool_field, string_list, object_field, array_field, id_field, or_else,
  value_or,
}
use stoatpp.Models.User.{User, user_from_json, no_user}

-- `events::Message`
pub record Message (J : JsonLib) : Type 0 where
  pub id : Text
  pub channel_id : Text
  pub server_id : Text
  pub author : User J
  pub content : Text
  pub nonce : Text
  pub edited : Bool
  pub prefix : Text
  pub replies : List Text
  pub mentions : List Text
  pub attachments : List Text
  pub raw : J.Json

-- `events::MessageReact`
pub record MessageReact : Type 0 where
  pub id : Text
  pub channel_id : Text
  pub user_id : Text
  pub emoji_id : Text

module _ (J : JsonLib) where
  -- `member._id.server`
  abbrev pub member_server : J.Json → Option Text
  member_server j = elim (object_field J j (lit "member")) [
    | none ↦ none
    | some member ↦ elim (object_field J member (lit "_id")) [
      | none ↦ none
      | some key ↦ string_field J key (lit "server")
    ]
  ]

  -- The author: the object `user`, or else `author` as an object or as an id.
  abbrev pub author_of : J.Json → User J
  author_of j = elim (object_field J j (lit "user")) [
    | some u ↦ user_from_json J u
    | none ↦ elim (object_field J j (lit "author")) [
      | some a ↦ user_from_json J a
      | none ↦ elim (string_field J j (lit "author")) [
        | some i ↦ record (no_user J) { id = i }
        | none ↦ no_user J
      ]
    ]
  ]

  -- A webhook's name replaces the author's.
  abbrev pub webhook_name : J.Json → Option Text
  webhook_name j = elim (object_field J j (lit "webhook")) [
    | none ↦ none
    | some hook ↦ string_field J hook (lit "name")
  ]

  abbrev pub named : User J → Option Text → User J
  named u none = u
  named u (some name) = record u { username = name }

  -- An attachment: its id as a string, or an object with `id` or else `_id`.
  abbrev pub attachment_id : J.Json → Option Text
  attachment_id a =
      if J.is_string a then some (J.get_string a) else if J.is_object a then id_field J a else none

  abbrev pub attachment_ids : List J.Json → List Text
  attachment_ids [] = []
  attachment_ids (a ∷ js) =
      let rest = attachment_ids js in elim (attachment_id a) [ some i ↦ i ∷ rest | none ↦ rest ]

  -- `events::Message::from_json`. `dispatch_command` sets `prefix`.
  unfoldable pub message_from_json : J.Json → Message J
  message_from_json j = record {
    id = value_or (id_field J j) [];
    channel_id =
        value_or (or_else (string_field J j (lit "channel")) (string_field J j (lit "channel_id")))
          [];
    server_id = value_or (or_else (string_field J j (lit "server")) (member_server j)) [];
    author = named (author_of j) (webhook_name j);
    content = value_or (string_field J j (lit "content")) [];
    nonce = value_or (string_field J j (lit "nonce")) [];
    edited = value_or (bool_field J j (lit "edited")) false;
    prefix = [];
    replies = string_list J j (lit "replies");
    mentions = string_list J j (lit "mentions");
    attachments = attachment_ids (value_or (array_field J j (lit "attachments")) []);
    raw = j;
  }
