-- ===== src/Models/Invite.antt =====
-- include/stoatpp/models/invite.h.
use stoatpp.Prelude.{Option, none, []}
use stoatpp.Text.{Text, lit}
use stoatpp.Json.{JsonLib, string_field, or_else, value_or}

pub record Invite : Type 0 where
  pub code : Text
  pub channel_id : Text
  pub server_id : Option Text
  pub creator_id : Text

-- `Invite{}`
abbrev pub no_invite : Invite
no_invite = record { code = []; channel_id = []; server_id = none; creator_id = [] }

module _ (J : JsonLib) where
  -- `Invite::from_json`
  unfoldable pub invite_from_json : J.Json → Invite
  invite_from_json j = record {
    code = value_or (or_else (string_field J j (lit "code")) (string_field J j (lit "_id"))) [];
    channel_id = value_or (string_field J j (lit "channel")) [];
    server_id = string_field J j (lit "server");
    creator_id = value_or (string_field J j (lit "creator")) [];
  }
