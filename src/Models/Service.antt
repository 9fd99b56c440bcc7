-- ===== src/Models/Service.antt =====
-- include/stoatpp/models/ban.h, bot.h, attachment.h, user_settings.h, webhook.h (what is received) and system.h.
-- `none` is an exception of the JSON library.
use stoatpp.Prelude.{◌>>=◌, Bool, false, Option, none, some, List, [], ◌∷◌, if◌then◌else◌, not}
use stoatpp.Prelude.Int.{ℤ, pos}
use stoatpp.Text.{Text, lit}
use stoatpp.Dict.{Dict, insert}
use stoatpp.Json.{JsonLib, string_field, bool_field, object_field, id_field, with_text, value_or}

pub record Ban : Type 0 where
  pub user_id : Text
  pub reason : Option Text

pub record Bot : Type 0 where
  pub id : Text
  pub owner_id : Text
  pub name : Text
  pub description : Option Text
  pub token : Text
  pub public_bot : Bool

-- `Autumn` and `January`
pub record FileService : Type 0 where
  pub enabled : Bool
  pub url : Text

pub record Captcha : Type 0 where
  pub enabled : Bool
  pub sitekey : Text

pub record Features : Type 0 where
  pub captcha : Captcha
  pub email : Bool
  pub autumn : FileService
  pub january : FileService

pub record InstanceConfig : Type 0 where
  pub stoat : Text
  pub version : Text
  pub features : Features
  pub ws : Text

pub record InstanceStats : Type 0 where
  pub users_count : ℤ
  pub servers_count : ℤ
  pub channels_count : ℤ
  pub messages_count : ℤ

abbrev no_features : Features
no_features = record {
  captcha = record { enabled = false; sitekey = [] };
  email = false;
  autumn = record { enabled = false; url = [] };
  january = record { enabled = false; url = [] };
}

module _ (J : JsonLib) where
  pub record Attachment : Type 0 where
    pub id : Text
    pub tag : Text
    pub filename : Text
    pub content_type : Text
    pub size : ℤ
    pub metadata : J.Json

  pub record Webhook : Type 0 where
    pub id : Text
    pub name : Text
    pub channel_id : Text
    pub avatar : Option Text
    pub token : Option Text
    pub raw : J.Json

  -- `j.value(k, default)`: the value of a key that is there must be of the default's kind.
  abbrev checked : {A : Type 0} → (J.Json → Bool) → (J.Json → A) → A → J.Json → Text → Option A
  checked is_kind get default j k =
      if not (J.is_object j)
      then none
      else if not (J.contains j k)
      then some default
      else if is_kind (J.field j k)
      then some (get (J.field j k))
      else none

  abbrev int64_value : J.Json → Text → Option ℤ
  int64_value = checked J.is_number J.get_int64 (pos 0)

  abbrev bool_value : J.Json → Text → Option Bool
  bool_value = checked J.is_boolean J.get_bool false

  abbrev text_value : J.Json → Text → Option Text
  text_value = checked J.is_string J.get_string []

  -- The user in the object `id`, or else in `_id`.
  abbrev banned_user : Option J.Json → Option J.Json → Text
  banned_user (some key) other = value_or (string_field J key (lit "user")) []
  banned_user none (some key) = value_or (string_field J key (lit "user")) []
  banned_user none none = []

  -- `Ban::from_json`
  unfoldable pub ban_from_json : J.Json → Ban
  ban_from_json j = record {
    user_id = banned_user (object_field J j (lit "id")) (object_field J j (lit "_id"));
    reason = string_field J j (lit "reason");
  }

  -- `Bot::from_json`
  unfoldable pub bot_from_json : J.Json → Bot
  bot_from_json j = record {
    id = value_or (id_field J j) [];
    owner_id = value_or (string_field J j (lit "owner")) [];
    name = value_or (string_field J j (lit "name")) [];
    description = string_field J j (lit "description");
    token = value_or (string_field J j (lit "token")) [];
    public_bot = value_or (bool_field J j (lit "public")) false;
  }

  -- `Attachment::from_json`
  unfoldable pub attachment_from_json : J.Json → Option Attachment
  attachment_from_json j = do
    size ← int64_value j (lit "size")
    some (record {
      id = value_or (id_field J j) [];
      tag = value_or (string_field J j (lit "tag")) [];
      filename = value_or (string_field J j (lit "filename")) [];
      content_type = value_or (string_field J j (lit "content_type")) [];
      size = size;
      metadata = if J.contains j (lit "metadata") then J.field j (lit "metadata") else J.null;
    })

  -- `Webhook::from_json`
  unfoldable pub webhook_from_json : J.Json → Webhook
  webhook_from_json j = record {
    id = value_or (id_field J j) [];
    name = value_or (string_field J j (lit "name")) [];
    channel_id = value_or (string_field J j (lit "channel_id")) [];
    avatar = string_field J j (lit "avatar");
    token = string_field J j (lit "token");
    raw = j;
  }

  -- `Webhook::to_json`
  unfoldable pub webhook_to_json : Webhook → J.Json
  webhook_to_json w =
      let j = J.with_field w.raw (lit "id") (J.of_text w.id) in
      let j = J.with_field j (lit "name") (J.of_text w.name) in
      let j = J.with_field j (lit "channel_id") (J.of_text w.channel_id) in
      let j = with_text J j (lit "avatar") w.avatar in with_text J j (lit "token") w.token

  -- `UserSettings::from_json` and `to_json`
  abbrev keep_settings : List (Text × J.Json) → Dict J.Json → Dict J.Json
  keep_settings [] settings = settings
  keep_settings ((k, v) ∷ items) settings = keep_settings items (insert k v settings)

  unfoldable pub settings_from_json : J.Json → Dict J.Json
  unfolding insert
  settings_from_json j = if J.is_object j then keep_settings (J.items j) [] else []

  abbrev add_settings : Dict J.Json → J.Json → J.Json
  add_settings [] j = j
  add_settings ((k, v) ∷ settings) j = add_settings settings (J.with_field j k v)

  unfoldable pub settings_to_json : Dict J.Json → J.Json
  settings_to_json settings = add_settings settings J.object

  abbrev captcha_of : Option J.Json → Option Captcha
  captcha_of none = some no_features.captcha
  captcha_of (some j) = do
    enabled ← bool_value j (lit "enabled")
    sitekey ← text_value j (lit "sitekey")
    some (record { enabled = enabled; sitekey = sitekey })

  abbrev service_of : Option J.Json → Option FileService
  service_of none = some (record { enabled = false; url = [] })
  service_of (some j) = do
    enabled ← bool_value j (lit "enabled")
    url ← text_value j (lit "url")
    some (record { enabled = enabled; url = url })

  abbrev features_of : Option J.Json → Option Features
  features_of none = some no_features
  features_of (some feat) = do
    captcha ← captcha_of (object_field J feat (lit "captcha"))
    email ← bool_value feat (lit "email")
    autumn ← service_of (object_field J feat (lit "autumn"))
    january ← service_of (object_field J feat (lit "january"))
    some (record { captcha = captcha; email = email; autumn = autumn; january = january })

  -- `InstanceConfig::from_json`
  unfoldable pub instance_config_from_json : J.Json → Option InstanceConfig
  instance_config_from_json j = do
    features ← features_of (object_field J j (lit "features"))
    some (record {
      stoat = value_or (string_field J j (lit "stoat")) [];
      version = value_or (string_field J j (lit "version")) [];
      features = features;
      ws = value_or (string_field J j (lit "ws")) [];
    })

  -- `InstanceStats::from_json`
  unfoldable pub instance_stats_from_json : J.Json → Option InstanceStats
  instance_stats_from_json j = do
    users ← int64_value j (lit "users_count")
    servers ← int64_value j (lit "servers_count")
    channels ← int64_value j (lit "channels_count")
    messages ← int64_value j (lit "messages_count")
    some (record {
      users_count = users;
      servers_count = servers;
      channels_count = channels;
      messages_count = messages;
    })
