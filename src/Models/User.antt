-- ===== src/Models/User.antt =====
-- include/stoatpp/models/user.h
use stoatpp.Prelude.{Bool, true, false, Option, none, some, [], if◌then◌else◌, ◌&&◌, not, ◌++◌}
use stoatpp.Prelude.Int.{ℤ, pos}
use stoatpp.Text.{Text, lit}
use stoatpp.Json.{
  JsonLib, string_field, number_field, object_field, file_ref, file_field, id_field, value_or,
  with_text,
}

pub record User (J : JsonLib) : Type 0 where
  pub id : Text
  pub username : Text
  pub discriminator : Text
  pub display_name : Option Text
  pub avatar : Option Text
  pub banner : Option Text
  pub bio : Option Text
  pub status_text : Option Text
  pub presence : Option Text
  pub bot : Bool
  pub bot_owner : Option Text
  pub flags : ℤ
  pub raw : J.Json

abbrev is_none {ℓ} : {A : Type ℓ} → Option A → Bool
is_none none = true
is_none (some a) = false

module _ (J : JsonLib) where
  abbrev pub banner_of : Option J.Json → Option Text
  banner_of none = none
  banner_of (some profile) =
      if J.contains profile (lit "background")
      then file_ref J (J.field profile (lit "background")) (lit "id") (lit "_id")
      else none

  -- a string under `k` of an optional object
  abbrev pub string_of : Option J.Json → Text → Option Text
  string_of none k = none
  string_of (some j) k = string_field J j k

  -- `bot` is an object for a bot, or a plain boolean from some endpoints
  abbrev pub is_bot : J.Json → Bool
  is_bot j =
      if J.contains j (lit "bot") && not (J.is_null (J.field j (lit "bot")))
      then (let b = J.field j (lit "bot") in
          if J.is_object b then true else if J.is_boolean b then J.get_bool b else false)
      else false

  abbrev pub bot_owner_of : J.Json → Option Text
  bot_owner_of j =
      if J.contains j (lit "bot") && not (J.is_null (J.field j (lit "bot")))
      then string_of (object_field J j (lit "bot")) (lit "owner")
      else none

  -- `User::from_json`
  unfoldable pub user_from_json : J.Json → User J
  user_from_json j = record {
    id = value_or (id_field J j) [];
    username = value_or (string_field J j (lit "username")) [];
    discriminator = value_or (string_field J j (lit "discriminator")) [];
    display_name = string_field J j (lit "display_name");
    avatar = file_field J j (lit "avatar") (lit "id") (lit "_id");
    banner = banner_of (object_field J j (lit "profile"));
    bio = string_of (object_field J j (lit "profile")) (lit "content");
    status_text = string_of (object_field J j (lit "status")) (lit "text");
    presence = string_of (object_field J j (lit "status")) (lit "presence");
    bot = is_bot j;
    bot_owner = bot_owner_of j;
    flags = value_or (number_field J j (lit "flags")) (pos 0);
    raw = j;
  }

  -- `User{}`
  abbrev pub no_user : User J
  no_user = record {
    id = [];
    username = [];
    discriminator = [];
    display_name = none;
    avatar = none;
    banner = none;
    bio = none;
    status_text = none;
    presence = none;
    bot = false;
    bot_owner = none;
    flags = pos 0;
    raw = J.null;
  }

  -- `User::to_json`
  unfoldable pub user_to_json : User J → J.Json
  user_to_json u =
      let j = J.with_field u.raw (lit "id") (J.of_text u.id) in
      let j = J.with_field j (lit "username") (J.of_text u.username) in
      let j = J.with_field j (lit "discriminator") (J.of_text u.discriminator) in
      let j = with_text J j (lit "display_name") u.display_name in
      let j = with_text J j (lit "avatar") u.avatar in
      let bot = if u.bot then with_text J J.object (lit "owner") u.bot_owner else J.null in
      let j = J.with_field j (lit "bot") bot in
      let j = J.with_field j (lit "flags") (J.of_int u.flags) in
      let prof =
        with_text J (with_text J J.object (lit "background") u.banner) (lit "content") u.bio in
      let j =
        if is_none u.banner && is_none u.bio then j else J.with_field j (lit "profile") prof in
      let stat =
        with_text J (with_text J J.object (lit "text") u.status_text) (lit "presence") u.presence in
      if is_none u.status_text && is_none u.presence then j else J.with_field j (lit "status") stat

  -- `User::avatar_url`, `User::banner_url`
  unfoldable pub avatar_url : User J → Text → Text
  avatar_url u cdn = elim u.avatar [
    | some a ↦ cdn ++ lit "/avatars/" ++ a
    | none ↦ lit "https://api.stoat.chat/assets/default_avatar.png"
  ]

  unfoldable pub banner_url : User J → Text → Text
  banner_url u cdn = elim u.banner [ some b ↦ cdn ++ lit "/backgrounds/" ++ b | none ↦ [] ]
