-- ===== src/Rest/Endpoints/Webhooks.antt =====
-- The endpoints of src/rest.cpp for webhooks, as the requests that they make.
use stoatpp.Prelude.{Option, ◌++◌}
use stoatpp.Text.{Text, lit}
use stoatpp.Json.{JsonLib, with_text}
use stoatpp.Models.Payload.{WebhookExecutePayload, webhook_payload_to_json}
use stoatpp.Rest.Exchange.{Request}
use stoatpp.Rest.Verbs.{get, post, patch, del}

module _ (J : JsonLib) where
  unfoldable pub create_webhook : Text → Text → Option Text → Request J
  create_webhook channel_id name avatar_id =
      let body : J.Json = J.null in
      let body = J.with_field body (lit "name") (J.of_text name) in
      let body = with_text J body (lit "avatar") avatar_id in
      post J (lit "/channels/" ++ channel_id ++ lit "/webhooks") body

  unfoldable pub get_channel_webhooks : Text → Request J
  get_channel_webhooks channel_id = get J (lit "/channels/" ++ channel_id ++ lit "/webhooks")

  unfoldable pub delete_webhook : Text → Request J
  delete_webhook webhook_id = del J (lit "/webhooks/" ++ webhook_id) J.null

  unfoldable pub execute_webhook : Text → Text → WebhookExecutePayload J → Request J
  unfolding webhook_payload_to_json
  execute_webhook webhook_id webhook_token payload =
      post J (lit "/webhooks/" ++ webhook_id ++ lit "/" ++ webhook_token)
        (webhook_payload_to_json J payload)

  unfoldable pub get_webhook : Text → Request J
  get_webhook webhook_id = get J (lit "/webhooks/" ++ webhook_id)

  unfoldable pub edit_webhook : Text → J.Json → Request J
  edit_webhook webhook_id fields = patch J (lit "/webhooks/" ++ webhook_id) fields

  unfoldable pub execute_webhook_with_token : Text → Text → WebhookExecutePayload J → Request J
  unfolding webhook_payload_to_json
  execute_webhook_with_token webhook_id token payload =
      post J (lit "/webhooks/" ++ webhook_id ++ lit "/" ++ token)
        (webhook_payload_to_json J payload)

  unfoldable pub get_webhook_with_token : Text → Text → Request J
  get_webhook_with_token webhook_id token =
      get J (lit "/webhooks/" ++ webhook_id ++ lit "/" ++ token)

  unfoldable pub edit_webhook_with_token : Text → Text → J.Json → Request J
  edit_webhook_with_token webhook_id token fields =
      patch J (lit "/webhooks/" ++ webhook_id ++ lit "/" ++ token) fields

  unfoldable pub delete_webhook_with_token : Text → Text → Request J
  delete_webhook_with_token webhook_id token =
      del J (lit "/webhooks/" ++ webhook_id ++ lit "/" ++ token) J.null

  unfoldable pub edit_webhook_message : Text → Text → Text → J.Json → Request J
  edit_webhook_message webhook_id token message_id fields =
      patch J (lit "/webhooks/" ++ webhook_id ++ lit "/" ++ token ++ lit "/" ++ message_id) fields

  unfoldable pub delete_webhook_message : Text → Text → Text → Request J
  delete_webhook_message webhook_id token message_id =
      del J (lit "/webhooks/" ++ webhook_id ++ lit "/" ++ token ++ lit "/" ++ message_id) J.null

  unfoldable pub execute_github_webhook : Text → Text → J.Json → Request J
  execute_github_webhook webhook_id token payload =
      post J (lit "/webhooks/" ++ webhook_id ++ lit "/" ++ token ++ lit "/github") payload
