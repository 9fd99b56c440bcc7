-- ===== src/Gateway/Ready.antt =====
-- The `Ready` and role branches of `gateway::handle_event` of src/gateway.cpp.
use stoatpp.Prelude.{Option, none, some, List, [], ◌∷◌, map, if◌then◌else◌, is_nil, ◌&&◌, ◌||◌, not}
use stoatpp.Text.{Text, lit, text_eq}
use stoatpp.Json.{JsonLib, id_field, array_field, value_or}
use stoatpp.Models.Role.{Role, role_from_json, no_role}
use stoatpp.Models.Member.{member_from_json}
use stoatpp.Models.Server.{server_from_json}
use stoatpp.Models.User.{User, user_from_json}
use stoatpp.Models.Channel.{channel_from_json}
use stoatpp.Models.Emoji.{emoji_from_json}
use stoatpp.Events.Event.{Ready, RoleUpdate, server_role_create}
use stoatpp.Gateway.Fields.{Built, thrown, built, text_or_empty, value_or_null, role_server_id}
use stoatpp.Json.{string_list}

module _ (J : JsonLib) where
  -- The first user of the list whose `id`, or else `_id`, is the given one.
  unfoldable pub find_self : Text → List J.Json → Option (User J)
  find_self id [] = none
  find_self id (u ∷ us) =
      let rest = find_self id us in
      if text_eq (value_or (id_field J u) []) id then some (user_from_json J u) else rest

  -- The user that the event is about: `user`, or else oneself among `users`, or else the user that was
  -- fetched when connecting.
  unfoldable pub ready_user : User J → J.Json → User J
  unfolding find_self
  ready_user self j =
      if J.contains j (lit "user")
      then user_from_json J (J.field j (lit "user"))
      else if not (is_nil self.id)
      then value_or (find_self self.id (value_or (array_field J j (lit "users")) [])) self
      else self

  abbrev objects : {A : Type 0} → (J.Json → A) → J.Json → Text → List A
  objects from_json j k = map from_json (value_or (array_field J j k) [])

  unfoldable pub ready_of : User J → J.Json → Ready J
  unfolding ready_user
  ready_of self j = record {
    user = ready_user self j;
    users = objects (user_from_json J) j (lit "users");
    servers = objects (server_from_json J) j (lit "servers");
    channels = objects (channel_from_json J) j (lit "channels");
    members = objects (member_from_json J) j (lit "members");
    emojis = objects (emoji_from_json J) j (lit "emojis");
  }

  -- `role_j["id"] = role_id`: `none` is the exception where `role_j` is neither an object nor null.
  abbrev with_role_id : Text → J.Json → Option J.Json
  with_role_id role_id role_j =
      if is_nil role_id
      then some role_j
      else if J.is_object role_j || J.is_null role_j
      then some (J.with_field role_j (lit "id") (J.of_text role_id))
      else none

  -- A role without an id takes the event's.
  abbrev named_role : Text → Role J → Role J
  named_role role_id role =
      if is_nil role.id && not (is_nil role_id) then record role { id = role_id } else role

  abbrev event_role : Text → J.Json → Option (Role J)
  event_role role_id j =
      if J.contains j (lit "role")
      then elim (with_role_id role_id (J.field j (lit "role"))) [
        | none ↦ none
        | some role_j ↦ some (named_role role_id (role_from_json J role_j))
      ]
      else some (no_role J)

  abbrev pub role_create_of : J.Json → Built J
  role_create_of j =
      let role_id = text_or_empty J j (lit "role_id") in
      elim (event_role role_id j) [
        | none ↦ thrown
        | some role ↦ built (
            server_role_create
              (record { server_id = role_server_id J j; role_id = role_id; role = role }))
      ]

  abbrev pub role_update_of : J.Json → RoleUpdate J
  role_update_of j = record {
    server_id = role_server_id J j;
    role_id = text_or_empty J j (lit "role_id");
    changes = value_or_null J j (lit "data");
    clear = string_list J j (lit "clear");
  }
