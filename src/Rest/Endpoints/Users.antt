-- ===== src/Rest/Endpoints/Users.antt =====
-- The endpoints of src/rest.cpp for users, emojis, bots, invites and the node, as the requests that they make.
use stoatpp.Prelude.{Option, none, some, ◌++◌}
use stoatpp.Text.{Text, lit}
use stoatpp.Json.{JsonLib, with_text, with_json}
use stoatpp.Models.Payload.{ReportPayload, report_to_json}
use stoatpp.Rest.UrlEncode.{url_encode}
use stoatpp.Rest.Exchange.{Request}
use stoatpp.Rest.Verbs.{get, post, patch, put, del}

module _ (J : JsonLib) where
  -- `{{"type", "Server"}, {"id", *server_id}}`
  abbrev server_parent : Option Text → Option J.Json
  server_parent none = none
  server_parent (some id) = some (
      J.with_field (J.with_field J.object (lit "type") (J.of_text (lit "Server"))) (lit "id")
        (J.of_text id))

  unfoldable pub get_node_info : Request J
  get_node_info = get J (lit "/")

  unfoldable pub get_stats : Request J
  get_stats = get J (lit "/stats")

  unfoldable pub get_gateway : Request J
  get_gateway = get J (lit "/gateway")

  unfoldable pub create_report : ReportPayload → Request J
  unfolding report_to_json
  create_report payload = post J (lit "/safety/report") (report_to_json J payload)

  unfoldable pub get_attachment_metadata : Text → Request J
  get_attachment_metadata attachment_id = get J (lit "/attachments/" ++ attachment_id)

  unfoldable pub get_user_profile : Text → Request J
  get_user_profile user_id = get J (lit "/users/" ++ user_id ++ lit "/profile")

  unfoldable pub get_mutual_friends_and_servers : Text → Request J
  get_mutual_friends_and_servers user_id = get J (lit "/users/" ++ user_id ++ lit "/mutual")

  unfoldable pub edit_current_user : J.Json → Request J
  edit_current_user fields = patch J (lit "/users/@me") fields

  unfoldable pub get_relationships : Request J
  get_relationships = get J (lit "/users/relationships")

  unfoldable pub set_relationship : Text → Text → Request J
  set_relationship user_id relationship_status =
      let body : J.Json = J.null in
      let body = J.with_field body (lit "status") (J.of_text relationship_status) in
      put J (lit "/users/" ++ user_id ++ lit "/relationship") body

  unfoldable pub delete_relationship : Text → Request J
  delete_relationship user_id = del J (lit "/users/" ++ user_id ++ lit "/relationship") J.null

  unfoldable pub create_custom_emoji : Text → Text → Option Text → Request J
  create_custom_emoji name file_id server_id =
      let body : J.Json = J.null in
      let body = J.with_field body (lit "name") (J.of_text name) in
      let body = with_json J body (lit "parent") (server_parent server_id) in
      put J (lit "/custom/emoji/" ++ file_id) body

  unfoldable pub get_custom_emoji : Text → Request J
  get_custom_emoji emoji_id = get J (lit "/custom/emoji/" ++ emoji_id)

  unfoldable pub delete_custom_emoji : Text → Request J
  delete_custom_emoji emoji_id = del J (lit "/custom/emoji/" ++ emoji_id) J.null

  unfoldable pub get_active_dms : Request J
  get_active_dms = get J (lit "/users/dms")

  unfoldable pub open_dm : Text → Request J
  open_dm user_id = get J (lit "/users/" ++ user_id ++ lit "/dm")

  unfoldable pub create_bot : Text → Request J
  create_bot name =
      let body : J.Json = J.null in
      let body = J.with_field body (lit "name") (J.of_text name) in post J (lit "/bots") body

  unfoldable pub get_bot : Text → Request J
  get_bot bot_id = get J (lit "/bots/" ++ bot_id)

  unfoldable pub edit_bot : Text → J.Json → Request J
  edit_bot bot_id fields = patch J (lit "/bots/" ++ bot_id) fields

  unfoldable pub delete_bot : Text → Request J
  delete_bot bot_id = del J (lit "/bots/" ++ bot_id) J.null

  unfoldable pub invite_bot : Text → Text → Text → Request J
  invite_bot bot_id server_id channel_id =
      let body : J.Json = J.null in
      let body = J.with_field body (lit "server") (J.of_text server_id) in
      let body = J.with_field body (lit "channel") (J.of_text channel_id) in
      post J (lit "/bots/" ++ bot_id ++ lit "/invite") body

  unfoldable pub get_user : Text → Request J
  get_user user_id = get J (lit "/users/" ++ user_id)

  unfoldable pub get_user_default_avatar : Text → Request J
  get_user_default_avatar user_id = get J (lit "/users/" ++ user_id ++ lit "/default_avatar")

  unfoldable pub get_invite : Text → Request J
  get_invite invite_code = get J (lit "/invites/" ++ invite_code)

  unfoldable pub accept_invite : Text → Request J
  accept_invite invite_code = post J (lit "/invites/" ++ invite_code) J.null

  unfoldable pub get_user_flags : Text → Request J
  get_user_flags user_id = get J (lit "/users/" ++ user_id ++ lit "/flags")

  unfoldable pub change_username : Text → Option Text → Request J
  change_username username password =
      let body : J.Json = J.null in
      let body = J.with_field body (lit "username") (J.of_text username) in
      let body = with_text J body (lit "password") password in
      patch J (lit "/users/@me/username") body

  unfoldable pub get_owned_bots : Request J
  get_owned_bots = get J (lit "/bots/@me")

  unfoldable pub get_bot_invite_info : Text → Request J
  get_bot_invite_info bot_id = get J (lit "/bots/" ++ bot_id ++ lit "/invite")

  unfoldable pub search_users : Text → Request J
  unfolding url_encode
  search_users query = get J (lit "/users/search?query=" ++ url_encode query)
