-- ===== src/Rest/MoveChannel.antt =====
-- `move_channel_to_category` of src/rest.cpp: the categories of a server are read, changed and written back.
pub mod Counts
pub mod Once
use stoatpp.Prelude.{
  Bool, true, false, Option, none, some, List, [], ◌∷◌, ◌++◌, map, if◌then◌else◌, ◌&&◌, ◌||◌, not,
  is_nil,
}
use stoatpp.Text.{Text, lit, text_eq}
use stoatpp.Json.{JsonLib, string_field, array_field, value_or}
use stoatpp.Commands.Distance.{cmd_to_lower}
use stoatpp.Rest.Exchange.{Request, Response, success}
use stoatpp.Rest.Endpoints.Servers.{edit_server}

-- What the call does after `get_server` has answered: the answer is passed on, or a request is made, or an
-- exception is thrown (a `push_back` on a value that is neither an array nor null).
pub data Move (J : JsonLib) : Type 0 where
  refused : Response J → Move J
  edits : Request J → Move J
  broken : Move J

module _ (J : JsonLib) (channel_id : Text) where
  abbrev pub is_channel : J.Json → Bool
  is_channel v = J.is_string v && text_eq (J.get_string v) channel_id

  -- The erasing loop over `channels`.
  unfoldable pub without_channel : List J.Json → List J.Json
  without_channel [] = []
  without_channel (v ∷ vs) =
      let rest = without_channel vs in if is_channel v then rest else v ∷ rest

  unfoldable pub has_channels : J.Json → Bool
  has_channels cat = J.contains cat (lit "channels") && J.is_array (J.field cat (lit "channels"))

  unfoldable pub channels_in : J.Json → List J.Json
  channels_in cat = J.elements (J.field cat (lit "channels"))

  unfoldable pub set_channels : J.Json → List J.Json → J.Json
  set_channels cat channels = J.with_field cat (lit "channels") (J.array channels)

  unfoldable pub cleared : J.Json → J.Json
  unfolding without_channel has_channels channels_in set_channels
  cleared cat =
      if has_channels cat then set_channels cat (without_channel (channels_in cat)) else cat

  abbrev pub clear_all : List J.Json → List J.Json
  clear_all [] = []
  clear_all (cat ∷ cats) = cleared cat ∷ clear_all cats

  -- By its id, or else by its title in any case.
  unfoldable pub matches : Text → J.Json → Bool
  unfolding cmd_to_lower
  matches name cat =
      elim (string_field J cat (lit "id")) as (λ o. Bool) [
        | some id ↦ text_eq id name
        | none ↦ false
      ]
      || elim (string_field J cat (lit "title")) as (λ o. Bool) [
        | some title ↦ text_eq (cmd_to_lower title) (cmd_to_lower name)
        | none ↦ false
      ]

  -- A category that has no array of channels gets one.
  unfoldable pub with_channel : J.Json → J.Json
  unfolding has_channels channels_in set_channels
  with_channel cat =
      set_channels cat
        ((if has_channels cat then channels_in cat else []) ++ J.of_text channel_id ∷ [])

  -- The channel goes to the first category that matches: `none` where none does.
  unfoldable pub add_to_first : (J.Json → Bool) → List J.Json → Option (List J.Json)
  unfolding with_channel
  add_to_first test [] = none
  add_to_first test (cat ∷ cats) =
      let rest = add_to_first test cats in
      if test cat
      then some (with_channel cat ∷ cats)
      else elim rest [ none ↦ none | some more ↦ some (cat ∷ more) ]

  unfoldable pub is_default : J.Json → Bool
  is_default cat = text_eq (value_or (string_field J cat (lit "id")) []) (lit "default")

  unfoldable pub new_category : Text → Text → J.Json
  unfolding set_channels
  new_category id title =
      set_channels
        (J.with_field (J.with_field J.object (lit "id") (J.of_text id)) (lit "title")
          (J.of_text title))
        (J.of_text channel_id ∷ [])

  -- `cat["channels"].push_back(channel_id)` throws where `channels` is there and neither an array nor null.
  unfoldable pub takes_channel : J.Json → Bool
  takes_channel cat =
      not (J.contains cat (lit "channels"))
      || J.is_array (J.field cat (lit "channels"))
      || J.is_null (J.field cat (lit "channels"))

  -- The first default category, where there is one, can take a channel.
  unfoldable pub default_takes : List J.Json → Bool
  unfolding is_default takes_channel
  default_takes [] = true
  default_takes (cat ∷ cats) =
      let rest = default_takes cats in if is_default cat then takes_channel cat else rest

  -- Where no category matches: the default category or a new one, with a random id.
  unfoldable pub place_elsewhere : Text → Text → List J.Json → Option (List J.Json)
  unfolding add_to_first default_takes cmd_to_lower is_default new_category
  place_elsewhere cat_id name cats =
      if text_eq (cmd_to_lower name) (lit "default") || is_nil name
      then (if default_takes cats
          then some (
              value_or (add_to_first is_default cats)
                (cats ++ new_category (lit "default") (lit "Default") ∷ []))
          else none)
      else some (cats ++ new_category cat_id name ∷ [])

  -- The categories that are written back: `none` is the exception.
  unfoldable pub moved : Text → Text → List J.Json → Option (List J.Json)
  unfolding add_to_first matches place_elsewhere cleared
  moved cat_id name cats =
      let found = add_to_first (matches name) (clear_all cats) in
      elim found as (λ o. Option (List J.Json)) [
        | some more ↦ some more
        | none ↦ place_elsewhere cat_id name (clear_all cats)
      ]

module _ (J : JsonLib) where
  -- The whole call, with the answer of `get_server` and the random id of a new category.
  unfoldable pub move_channel_to_category : Text → Text → Text → Text → Response J → Move J
  unfolding success moved edit_server
  move_channel_to_category cat_id server_id channel_id name srv_res =
      if not (success srv_res.status_code)
      then refused srv_res
      else elim (moved J channel_id cat_id name
            (value_or (array_field J srv_res.body (lit "categories")) []))
          as (λ o. Move J) [
            | none ↦ broken
            | some cats ↦
                edits
                  (edit_server J server_id (J.with_field J.null (lit "categories") (J.array cats)))
          ]
