-- ===== src/Rest/Endpoints/Servers.antt =====
-- The endpoints of src/rest.cpp for servers, members, roles, as the requests that they make.
use stoatpp.Prelude.{Option, List, ◌++◌}
use stoatpp.Text.{Text, lit}
use stoatpp.Json.{JsonLib, with_text, texts}
use stoatpp.Rest.Exchange.{Request}
use stoatpp.Rest.Verbs.{get, post, patch, put, del}

module _ (J : JsonLib) where
  unfoldable pub create_server : Text → Option Text → Request J
  create_server name description =
      let body : J.Json = J.null in
      let body = J.with_field body (lit "name") (J.of_text name) in
      let body = with_text J body (lit "description") description in post J (lit "/servers") body

  unfoldable pub edit_server : Text → J.Json → Request J
  edit_server server_id fields = patch J (lit "/servers/" ++ server_id) fields

  unfoldable pub leave_server : Text → Request J
  leave_server server_id = del J (lit "/servers/" ++ server_id) J.null

  unfoldable pub get_server_invites : Text → Request J
  get_server_invites server_id = get J (lit "/servers/" ++ server_id ++ lit "/invites")

  unfoldable pub get_server_bans : Text → Request J
  get_server_bans server_id = get J (lit "/servers/" ++ server_id ++ lit "/bans")

  unfoldable pub ban_user : Text → Text → Option Text → Request J
  ban_user server_id user_id reason =
      let body = J.object in
      let body = with_text J body (lit "reason") reason in
      put J (lit "/servers/" ++ server_id ++ lit "/bans/" ++ user_id) body

  unfoldable pub unban_user : Text → Text → Request J
  unban_user server_id user_id =
      del J (lit "/servers/" ++ server_id ++ lit "/bans/" ++ user_id) J.null

  unfoldable pub get_server_members : Text → Request J
  get_server_members server_id = get J (lit "/servers/" ++ server_id ++ lit "/members")

  unfoldable pub edit_member : Text → Text → J.Json → Request J
  edit_member server_id user_id fields =
      patch J (lit "/servers/" ++ server_id ++ lit "/members/" ++ user_id) fields

  unfoldable pub kick_member : Text → Text → Request J
  kick_member server_id user_id =
      del J (lit "/servers/" ++ server_id ++ lit "/members/" ++ user_id) J.null

  unfoldable pub create_role : Text → Text → Request J
  create_role server_id name =
      let body : J.Json = J.null in
      let body = J.with_field body (lit "name") (J.of_text name) in
      post J (lit "/servers/" ++ server_id ++ lit "/roles") body

  unfoldable pub edit_role : Text → Text → J.Json → Request J
  edit_role server_id role_id fields =
      patch J (lit "/servers/" ++ server_id ++ lit "/roles/" ++ role_id) fields

  unfoldable pub delete_role : Text → Text → Request J
  delete_role server_id role_id =
      del J (lit "/servers/" ++ server_id ++ lit "/roles/" ++ role_id) J.null

  unfoldable pub get_server_channels : Text → Request J
  get_server_channels server_id = get J (lit "/servers/" ++ server_id ++ lit "/channels")

  unfoldable pub create_channel : Text → Text → Text → Request J
  create_channel server_id channel_type name =
      let body : J.Json = J.null in
      let body = J.with_field body (lit "channel_type") (J.of_text channel_type) in
      let body = J.with_field body (lit "name") (J.of_text name) in
      post J (lit "/servers/" ++ server_id ++ lit "/channels") body

  unfoldable pub get_server : Text → Request J
  get_server server_id = get J (lit "/servers/" ++ server_id)

  unfoldable pub get_server_member : Text → Text → Request J
  get_server_member server_id user_id =
      get J (lit "/servers/" ++ server_id ++ lit "/members/" ++ user_id)

  unfoldable pub get_server_emojis : Text → Request J
  get_server_emojis server_id = get J (lit "/servers/" ++ server_id ++ lit "/emojis")

  unfoldable pub edit_role_ranks : Text → List Text → Request J
  edit_role_ranks server_id rank_order =
      let body = J.with_field J.object (lit "ranks") (texts J rank_order) in
      patch J (lit "/servers/" ++ server_id ++ lit "/roles/ranks") body
