-- ===== src/Moderation/Messages.antt =====
-- The message operations of src/cluster/messaging.cpp.
use stoatpp.Prelude.{
  zero, suc, Bool, true, false, Option, none, some, List, [], ◌∷◌, map, if◌then◌else◌, is_nil,
}
use stoatpp.Prelude.Int.{ℤ, pos, negsuc}
use stoatpp.Text.{Text, lit}
use stoatpp.Json.{JsonLib, string_field, string_list, id_field, value_or, with_text, texts}
use stoatpp.Models.Payload.{MessagePayload, valid_embeds, with_list}
use stoatpp.Rest.Exchange.{Request, Response, success}
use stoatpp.Rest.Endpoints.Messages
use stoatpp.Moderation.Threads.{Answer, ThreadEffect, Given, thread, outcome, no}

-- `models::Message`
pub record SentMessage (J : JsonLib) : Type 0 where
  pub id : Text
  pub channel : Text
  pub author : Text
  pub content : Option Text
  pub edited_at : Option Text
  pub mentions : List Text
  pub replies : List Text
  pub embeds : J.Json
  pub attachments : J.Json
  pub raw : J.Json

module _ (J : JsonLib) where
  abbrev field_or_array : J.Json → Text → J.Json
  field_or_array j k = if J.contains j k then J.field j k else J.array []

  -- `models::Message::from_json`
  unfoldable pub sent_message_from_json : J.Json → SentMessage J
  sent_message_from_json j = record {
    id = value_or (id_field J j) [];
    channel = value_or (string_field J j (lit "channel")) [];
    author = value_or (string_field J j (lit "author")) [];
    content = string_field J j (lit "content");
    edited_at = string_field J j (lit "edited_at");
    mentions = string_list J j (lit "mentions");
    replies = string_list J j (lit "replies");
    embeds = field_or_array j (lit "embeds");
    attachments = field_or_array j (lit "attachments");
    raw = j;
  }

  -- `models::Message::to_json`
  unfoldable pub sent_message_to_json : SentMessage J → J.Json
  sent_message_to_json m =
      let j = J.with_field m.raw (lit "id") (J.of_text m.id) in
      let j = J.with_field j (lit "channel") (J.of_text m.channel) in
      let j = J.with_field j (lit "author") (J.of_text m.author) in
      let j = with_text J j (lit "content") m.content in
      let j = with_text J j (lit "edited_at") m.edited_at in
      let j = J.with_field j (lit "mentions") (texts J m.mentions) in
      let j = J.with_field j (lit "replies") (texts J m.replies) in
      let j = J.with_field j (lit "embeds") m.embeds in
      J.with_field j (lit "attachments") m.attachments

  -- `models::Message{}`
  abbrev no_message : SentMessage J
  no_message = record {
    id = [];
    channel = [];
    author = [];
    content = none;
    edited_at = none;
    mentions = [];
    replies = [];
    embeds = J.null;
    attachments = J.null;
    raw = J.null;
  }

  abbrev message_result : Response J → SentMessage J × Bool
  message_result r =
      if success r.status_code then (sent_message_from_json r.body, true) else (no_message, false)

  -- `send_message`, after the masquerade handler. The message that is deleted later is the next definition's.
  unfoldable pub send_message :
      Given (SentMessage J × Bool)
      → Text
      → MessagePayload J
      → Answer J
      → List (ThreadEffect J (SentMessage J × Bool))
  unfolding thread success sent_message_from_json Messages.create_message
  send_message g channel_id payload =
      thread J g (λ what. (no_message, false)) none message_result
        (Messages.create_message J channel_id payload)

  -- Where the callback has returned: the request that the thread behind `delete_after` makes, and the
  -- seconds that it sleeps before.
  unfoldable pub delayed_delete : Text → MessagePayload J → Response J → Option (ℤ × Request J)
  unfolding success sent_message_from_json Messages.delete_message
  delayed_delete channel_id payload r =
      if success r.status_code
      then (elim payload.delete_after as (λ n. Option (ℤ × Request J)) [
        | pos zero ↦ none
        | pos (suc n) ↦
            some
              (pos (suc n), Messages.delete_message J channel_id (sent_message_from_json r.body).id)
        | negsuc n ↦ none
      ])
      else none

  abbrev pub plain_payload : Text → MessagePayload J
  plain_payload content = record {
    content = content;
    nonce = none;
    replies = [];
    masquerade = none;
    embeds = [];
    attachments = [];
    interactions = none;
    delete_after = pos 0;
  }

  abbrev pub reply_payload : Text → Text → Bool → MessagePayload J
  reply_payload message_id content mention = record (plain_payload content) {
    replies = record { id = message_id; mention = mention } ∷ [];
  }

  -- The fields that `edit_message` writes for a payload; an empty content becomes a space.
  unfoldable pub edit_fields : MessagePayload J → J.Json
  unfolding valid_embeds
  edit_fields payload =
      let content = if is_nil payload.content then lit " " else payload.content in
      let body = J.with_field J.object (lit "content") (J.of_text content) in
      let body = with_list J body (lit "embeds") (valid_embeds J payload.embeds) in
      with_list J body (lit "attachments") (map J.of_text payload.attachments)

  abbrev edit_with :
      Given (SentMessage J × Bool)
      → Text
      → Text
      → J.Json
      → Answer J
      → List (ThreadEffect J (SentMessage J × Bool))
  edit_with g channel_id message_id body =
      thread J g (λ what. (no_message, false)) none message_result
        (Messages.edit_message J channel_id message_id body)

  unfoldable pub edit_content :
      Given (SentMessage J × Bool)
      → Text
      → Text
      → Text
      → Answer J
      → List (ThreadEffect J (SentMessage J × Bool))
  unfolding thread success sent_message_from_json Messages.edit_message
  edit_content g channel_id message_id new_content =
      edit_with g channel_id message_id
        (J.with_field J.object (lit "content") (J.of_text new_content))

  unfoldable pub edit_payload :
      Given (SentMessage J × Bool)
      → Text
      → Text
      → MessagePayload J
      → Answer J
      → List (ThreadEffect J (SentMessage J × Bool))
  unfolding thread success sent_message_from_json edit_fields Messages.edit_message
  edit_payload g channel_id message_id payload =
      edit_with g channel_id message_id (edit_fields payload)

  unfoldable pub delete_message : Given Bool → Text → Text → Answer J → List (ThreadEffect J Bool)
  unfolding thread Messages.delete_message
  delete_message g channel_id message_id =
      thread J g no none (outcome J) (Messages.delete_message J channel_id message_id)

  unfoldable pub pin_message : Given Bool → Text → Text → Answer J → List (ThreadEffect J Bool)
  unfolding thread Messages.pin_message
  pin_message g channel_id message_id =
      thread J g no none (outcome J) (Messages.pin_message J channel_id message_id)

  unfoldable pub unpin_message : Given Bool → Text → Text → Answer J → List (ThreadEffect J Bool)
  unfolding thread Messages.unpin_message
  unpin_message g channel_id message_id =
      thread J g no none (outcome J) (Messages.unpin_message J channel_id message_id)

  unfoldable pub react_to_message :
      Given Bool → Text → Text → Text → Answer J → List (ThreadEffect J Bool)
  unfolding thread Messages.add_reaction
  react_to_message g channel_id message_id emoji_id =
      thread J g no none (outcome J) (Messages.add_reaction J channel_id message_id emoji_id)

  unfoldable pub unreact_from_message :
      Given Bool → Text → Text → Text → Option Text → Answer J → List (ThreadEffect J Bool)
  unfolding thread Messages.remove_reaction
  unreact_from_message g channel_id message_id emoji_id user_id =
      thread J g no none (outcome J)
        (Messages.remove_reaction J channel_id message_id emoji_id user_id)
