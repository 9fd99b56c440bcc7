-- ===== src/Rest/Endpoints/Messages.antt =====
-- The endpoints of src/rest.cpp for messages, reactions, pins, as the requests that they make.
use stoatpp.Prelude.{Option, none, some, List, ◌++◌}
use stoatpp.Text.{Text, lit}
use stoatpp.Json.{JsonLib, texts}
use stoatpp.Models.Payload.{
  MessagePayload, MessageQuery, MessageSearchQuery, payload_to_json, search_to_json,
  to_query_string,
}
use stoatpp.Rest.UrlEncode.{url_encode}
use stoatpp.Rest.Exchange.{Request}
use stoatpp.Rest.Verbs.{get, post, patch, put, del}

module _ (J : JsonLib) where
  unfoldable pub get_messages : Text → MessageQuery → Request J
  unfolding to_query_string
  get_messages channel_id query =
      get J (lit "/channels/" ++ channel_id ++ lit "/messages" ++ to_query_string query)

  unfoldable pub get_message : Text → Text → Request J
  get_message channel_id message_id =
      get J (lit "/channels/" ++ channel_id ++ lit "/messages/" ++ message_id)

  unfoldable pub search_messages : Text → MessageSearchQuery → Request J
  unfolding search_to_json
  search_messages channel_id query =
      post J (lit "/channels/" ++ channel_id ++ lit "/search") (search_to_json J query)

  unfoldable pub delete_messages_bulk : Text → List Text → Request J
  delete_messages_bulk channel_id message_ids =
      let body : J.Json = J.null in
      let body = J.with_field body (lit "ids") (texts J message_ids) in
      del J (lit "/channels/" ++ channel_id ++ lit "/messages/bulk") body

  unfoldable pub remove_reaction : Text → Text → Text → Option Text → Request J
  unfolding url_encode
  remove_reaction channel_id message_id emoji user_id =
      let path =
        lit "/channels/"
        ++ channel_id
        ++ lit "/messages/"
        ++ message_id
        ++ lit "/reactions/"
        ++ url_encode emoji in
      let path = elim user_id as (λ u. Text) [
        | none ↦ path
        | some u ↦ path ++ lit "?user_id=" ++ u
      ] in
      del J (path) J.null

  unfoldable pub get_pinned_messages : Text → Request J
  get_pinned_messages channel_id = get J (lit "/channels/" ++ channel_id ++ lit "/pins")

  unfoldable pub pin_message : Text → Text → Request J
  pin_message channel_id message_id =
      post J (lit "/channels/" ++ channel_id ++ lit "/messages/" ++ message_id ++ lit "/pin") J.null

  unfoldable pub unpin_message : Text → Text → Request J
  unpin_message channel_id message_id =
      del J (lit "/channels/" ++ channel_id ++ lit "/messages/" ++ message_id ++ lit "/pin") J.null

  unfoldable pub clear_reactions : Text → Text → Request J
  clear_reactions channel_id message_id =
      del J (lit "/channels/" ++ channel_id ++ lit "/messages/" ++ message_id ++ lit "/reactions")
        J.null

  unfoldable pub acknowledge_message : Text → Text → Request J
  acknowledge_message channel_id message_id =
      put J (lit "/channels/" ++ channel_id ++ lit "/ack/" ++ message_id) J.null

  unfoldable pub acknowledge_channel : Text → Request J
  acknowledge_channel channel_id = put J (lit "/channels/" ++ channel_id ++ lit "/ack") J.null

  unfoldable pub add_reaction : Text → Text → Text → Request J
  unfolding url_encode
  add_reaction channel_id message_id emoji =
      put J
        (lit "/channels/"
          ++ channel_id
          ++ lit "/messages/"
          ++ message_id
          ++ lit "/reactions/"
          ++ url_encode emoji)
        J.null

  unfoldable pub create_message : Text → MessagePayload J → Request J
  unfolding payload_to_json
  create_message channel_id payload =
      post J (lit "/channels/" ++ channel_id ++ lit "/messages") (payload_to_json J payload)

  unfoldable pub create_message_json : Text → J.Json → Request J
  create_message_json channel_id payload_json =
      post J (lit "/channels/" ++ channel_id ++ lit "/messages") payload_json

  unfoldable pub edit_message : Text → Text → J.Json → Request J
  edit_message channel_id message_id fields =
      patch J (lit "/channels/" ++ channel_id ++ lit "/messages/" ++ message_id) fields

  unfoldable pub delete_message : Text → Text → Request J
  delete_message channel_id message_id =
      del J (lit "/channels/" ++ channel_id ++ lit "/messages/" ++ message_id) J.null
