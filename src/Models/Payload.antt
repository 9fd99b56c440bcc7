-- ===== src/Models/Payload.antt =====
-- What a bot sends: include/stoatpp/models/message.h, webhook.h and system.h.
use stoatpp.Prelude.{
  ℕ, ◌+◌, ◌-◌, ◌/◌, ◌%◌, Bool, false, Option, none, some, List, [], ◌∷◌, ◌++◌, map, if◌then◌else◌,
  ◌&&◌, ◌||◌, not, is_nil, ltb,
}
use stoatpp.Prelude.Int.{ℤ}
use stoatpp.Text.{Text, lit}
use stoatpp.Json.{JsonLib, string_field, with_text, value_or}
use stoatpp.Rest.Numerals.{to_string}

pub record Embed : Type 0 where
  pub title : Option Text
  pub description : Option Text
  pub url : Option Text
  pub icon_url : Option Text
  pub colour : Option Text
  pub media : Option Text

pub record PayloadReply : Type 0 where
  pub id : Text
  pub mention : Bool

pub record Masquerade : Type 0 where
  pub name : Option Text
  pub avatar : Option Text
  pub colour : Option Text

pub record Interactions : Type 0 where
  pub reactions : List Text
  pub restrict_reactions : Bool

pub record MessagePayload (J : JsonLib) : Type 0 where
  pub content : Text
  pub nonce : Option Text
  pub replies : List PayloadReply
  pub masquerade : Option Masquerade
  pub embeds : List J.Json
  pub attachments : List Text
  pub interactions : Option Interactions
  pub delete_after : ℤ

pub record WebhookExecutePayload (J : JsonLib) : Type 0 where
  pub content : Text
  pub username : Option Text
  pub avatar_url : Option Text
  pub embeds : List J.Json

pub record ReportPayload : Type 0 where
  pub content_type : Text
  pub id : Text
  pub reason : Text
  pub additional_context : Option Text

pub record MessageQuery : Type 0 where
  pub limit : Option ℤ
  pub before : Option Text
  pub after : Option Text
  pub sort : Option Text
  pub nearby : Option Text

pub record MessageSearchQuery : Type 0 where
  pub query : Option Text
  pub limit : Option ℤ
  pub before : Option Text
  pub after : Option Text
  pub sort : Option Text
  pub pinned : Option Bool
  pub include_users : Option Bool

-- `Embed::set_colour(uint32_t)`: a hash sign and six hexadecimal digits, in lower case.
abbrev lower_hex : ℕ → ℕ
lower_hex n = let d = n % 16 in if ltb d 10 then b'0' + d else b'a' + (d - 10)

unfoldable pub set_colour : ℕ → Embed → Embed
set_colour rgb e = record e {
  colour = some (
      b'#'
      ∷ lower_hex (rgb / 1048576)
      ∷ lower_hex (rgb / 65536)
      ∷ lower_hex (rgb / 4096)
      ∷ lower_hex (rgb / 256)
      ∷ lower_hex (rgb / 16)
      ∷ lower_hex rgb
      ∷ []);
}

-- `q += (q.empty() ? "?" : "&") + key + value`, where there is a value
unfoldable pub add_parameter : Text → Text → Option Text → Text
add_parameter q key none = q
add_parameter q key (some v) = q ++ (if is_nil q then lit "?" else lit "&") ++ key ++ v

-- `MessageQuery::to_query_string`
unfoldable pub to_query_string : MessageQuery → Text
unfolding add_parameter to_string
to_query_string m =
    let limit : Option Text = elim m.limit [ none ↦ none | some n ↦ some (to_string n) ] in
    let q = add_parameter [] (lit "limit=") limit in
    let q = add_parameter q (lit "before=") m.before in
    let q = add_parameter q (lit "after=") m.after in
    let q = add_parameter q (lit "sort=") m.sort in add_parameter q (lit "nearby=") m.nearby

module _ (J : JsonLib) where
  abbrev pub with_int : J.Json → Text → Option ℤ → J.Json
  with_int j k none = j
  with_int j k (some n) = J.with_field j k (J.of_int n)

  abbrev pub with_bool : J.Json → Text → Option Bool → J.Json
  with_bool j k none = j
  with_bool j k (some b) = J.with_field j k (J.of_bool b)

  -- `Embed::to_json`
  unfoldable pub embed_to_json : Embed → J.Json
  embed_to_json e =
      let j = with_text J J.null (lit "title") e.title in
      let j = with_text J j (lit "description") e.description in
      let j = with_text J j (lit "url") e.url in
      let j = with_text J j (lit "icon_url") e.icon_url in
      let j = with_text J j (lit "colour") e.colour in with_text J j (lit "media") e.media

  -- A string that is not empty under one of the keys
  unfoldable pub has_some_text : J.Json → List Text → Bool
  has_some_text emb [] = false
  has_some_text emb (k ∷ ks) =
      not (is_nil (value_or (string_field J emb k) [])) || has_some_text emb ks

  abbrev pub content_keys : List Text
  content_keys =
      lit "title" ∷ lit "description" ∷ lit "media" ∷ lit "image" ∷ lit "url" ∷ lit "icon_url" ∷ []

  unfoldable pub valid_embeds : List J.Json → List J.Json
  unfolding has_some_text
  valid_embeds [] = []
  valid_embeds (emb ∷ embeds) =
      let rest = valid_embeds embeds in
      if J.is_object emb && has_some_text emb content_keys then emb ∷ rest else rest

  abbrev pub with_list : J.Json → Text → List J.Json → J.Json
  with_list j k [] = j
  with_list j k (v ∷ vs) = J.with_field j k (J.array (v ∷ vs))

  abbrev reply_to_json : PayloadReply → J.Json
  reply_to_json r =
      J.with_field (J.with_field J.object (lit "id") (J.of_text r.id)) (lit "mention")
        (J.of_bool r.mention)

  abbrev with_masquerade : J.Json → Option Masquerade → J.Json
  with_masquerade j none = j
  with_masquerade j (some m) =
      let masq = with_text J J.object (lit "name") m.name in
      let masq = with_text J masq (lit "avatar") m.avatar in
      J.with_field j (lit "masquerade") (with_text J masq (lit "colour") m.colour)

  abbrev with_interactions : J.Json → Option Interactions → J.Json
  with_interactions j none = j
  with_interactions j (some i) =
      let inter = with_list J.object (lit "reactions") (map J.of_text i.reactions) in
      J.with_field j (lit "interactions")
        (J.with_field inter (lit "restrict_reactions") (J.of_bool i.restrict_reactions))

  -- `MessagePayload::to_json`
  unfoldable pub payload_to_json : MessagePayload J → J.Json
  unfolding valid_embeds
  payload_to_json p =
      let j =
        if is_nil p.content
        then J.object
        else J.with_field J.object (lit "content") (J.of_text p.content) in
      let j = with_text J j (lit "nonce") p.nonce in
      let j = with_list j (lit "replies") (map reply_to_json p.replies) in
      let j = with_masquerade j p.masquerade in
      let j = with_list j (lit "embeds") (valid_embeds p.embeds) in
      let j = with_list j (lit "attachments") (map J.of_text p.attachments) in
      with_interactions j p.interactions

  -- `WebhookExecutePayload::to_json`
  unfoldable pub webhook_payload_to_json : WebhookExecutePayload J → J.Json
  unfolding valid_embeds
  webhook_payload_to_json p =
      let j = J.with_field J.null (lit "content") (J.of_text p.content) in
      let j = with_text J j (lit "username") p.username in
      let j = with_text J j (lit "avatar_url") p.avatar_url in
      with_list j (lit "embeds") (valid_embeds p.embeds)

  -- `ReportPayload::to_json`
  unfoldable pub report_to_json : ReportPayload → J.Json
  report_to_json p =
      let j = J.with_field J.null (lit "content_type") (J.of_text p.content_type) in
      let j = J.with_field j (lit "id") (J.of_text p.id) in
      let j = J.with_field j (lit "reason") (J.of_text p.reason) in
      with_text J j (lit "additional_context") p.additional_context

  -- `MessageSearchQuery::to_json`
  unfoldable pub search_to_json : MessageSearchQuery → J.Json
  search_to_json m =
      let j = with_text J J.object (lit "query") m.query in
      let j = with_int j (lit "limit") m.limit in
      let j = with_text J j (lit "before") m.before in
      let j = with_text J j (lit "after") m.after in
      let j = with_text J j (lit "sort") m.sort in
      let j = with_bool j (lit "pinned") m.pinned in
      with_bool j (lit "include_users") m.include_users
