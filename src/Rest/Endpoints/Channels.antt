-- ===== src/Rest/Endpoints/Channels.antt =====
-- The endpoints of src/rest.cpp for channels and their permissions, as the requests that they make.
use stoatpp.Prelude.{List, ◌++◌}
use stoatpp.Prelude.Int.{ℤ, pos}
use stoatpp.Text.{Text, lit}
use stoatpp.Json.{JsonLib, texts}
use stoatpp.Rest.Exchange.{Request}
use stoatpp.Rest.Verbs.{get, post, patch, put, del}

module _ (J : JsonLib) where
  unfoldable pub edit_channel : Text → J.Json → Request J
  edit_channel channel_id fields = patch J (lit "/channels/" ++ channel_id) fields

  unfoldable pub delete_channel : Text → Request J
  delete_channel channel_id = del J (lit "/channels/" ++ channel_id) J.null

  unfoldable pub get_channel_invites : Text → Request J
  get_channel_invites channel_id = get J (lit "/channels/" ++ channel_id ++ lit "/invites")

  unfoldable pub create_channel_invite : Text → Request J
  create_channel_invite channel_id =
      post J (lit "/channels/" ++ channel_id ++ lit "/invites") J.null

  unfoldable pub get_channel_permissions : Text → Request J
  get_channel_permissions channel_id = get J (lit "/channels/" ++ channel_id ++ lit "/permissions")

  unfoldable pub set_channel_permission : Text → Text → ℤ → ℤ → Request J
  set_channel_permission channel_id role_id allow_mask deny_mask =
      let body : J.Json = J.null in
      let masks =
        J.with_field (J.with_field J.object (lit "allow") (J.of_int allow_mask)) (lit "deny")
          (J.of_int deny_mask) in
      let body = J.with_field body (lit "permissions") masks in
      put J (lit "/channels/" ++ channel_id ++ lit "/permissions/" ++ role_id) body

  unfoldable pub delete_channel_permission : Text → Text → Request J
  delete_channel_permission channel_id role_id =
      del J (lit "/channels/" ++ channel_id ++ lit "/permissions/" ++ role_id) J.null

  unfoldable pub add_group_recipient : Text → Text → Request J
  add_group_recipient channel_id user_id =
      put J (lit "/channels/" ++ channel_id ++ lit "/recipients/" ++ user_id) J.null

  unfoldable pub remove_group_recipient : Text → Text → Request J
  remove_group_recipient channel_id user_id =
      del J (lit "/channels/" ++ channel_id ++ lit "/recipients/" ++ user_id) J.null

  unfoldable pub get_voice_call_info : Text → Request J
  get_voice_call_info channel_id = get J (lit "/channels/" ++ channel_id ++ lit "/call")

  unfoldable pub get_channel : Text → Request J
  get_channel channel_id = get J (lit "/channels/" ++ channel_id)

  unfoldable pub set_channel_default_permission : Text → ℤ → Request J
  set_channel_default_permission channel_id deny_mask =
      let body : J.Json = J.null in
      let masks =
        J.with_field (J.with_field J.object (lit "allow") (J.of_int (pos 0))) (lit "deny")
          (J.of_int deny_mask) in
      let body = J.with_field body (lit "permissions") masks in
      put J (lit "/channels/" ++ channel_id ++ lit "/permissions/default") body

  unfoldable pub create_group : Text → List Text → Request J
  create_group name users =
      let body : J.Json = J.null in
      let body = J.with_field body (lit "name") (J.of_text name) in
      let body = J.with_field body (lit "users") (texts J users) in
      post J (lit "/channels/create") body

  unfoldable pub get_group_members : Text → Request J
  get_group_members channel_id = get J (lit "/channels/" ++ channel_id ++ lit "/members")

  unfoldable pub join_voice_call : Text → Request J
  join_voice_call channel_id = post J (lit "/channels/" ++ channel_id ++ lit "/join_call") J.null

  unfoldable pub end_voice_ring : Text → Text → Request J
  end_voice_ring channel_id user_id =
      put J (lit "/channels/" ++ channel_id ++ lit "/end_ring/" ++ user_id) J.null
