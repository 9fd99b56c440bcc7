-- ===== src/Models/Emoji.antt =====
-- include/stoatpp/models/emoji.h
use stoatpp.Prelude.{Bool, false, Option, []}
use stoatpp.Text.{Text, lit}
use stoatpp.Json.{JsonLib, string_field, bool_field, id_field, value_or, with_text}

pub record Emoji (J : JsonLib) : Type 0 where
  pub id : Text
  pub name : Text
  pub server_id : Option Text
  pub creator_id : Text
  pub animated : Bool
  pub raw : J.Json

-- `Emoji::from_json`
unfoldable pub emoji_from_json : (J : JsonLib) → J.Json → Emoji J
emoji_from_json J j = record {
  id = value_or (id_field J j) [];
  name = value_or (string_field J j (lit "name")) [];
  server_id = string_field J j (lit "server_id");
  creator_id = value_or (string_field J j (lit "creator_id")) [];
  animated = value_or (bool_field J j (lit "animated")) false;
  raw = j;
}

-- `Emoji::to_json`
unfoldable pub emoji_to_json : (J : JsonLib) → Emoji J → J.Json
emoji_to_json J e =
    let j = J.with_field e.raw (lit "id") (J.of_text e.id) in
    let j = J.with_field j (lit "name") (J.of_text e.name) in
    let j = with_text J j (lit "server_id") e.server_id in
    let j = J.with_field j (lit "creator_id") (J.of_text e.creator_id) in
    J.with_field j (lit "animated") (J.of_bool e.animated)
