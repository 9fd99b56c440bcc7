-- ===== src/Gateway/Route.antt =====
-- The branches of `gateway::handle_event` of src/gateway.cpp that make an event for the dispatcher.
use stoatpp.Prelude.{false, Option, none, some, List, [], ◌∷◌, if◌then◌else◌, ◌++◌}
use stoatpp.Text.{Text, lit, text_eq}
use stoatpp.Json.{JsonLib, string_field, bool_field, value_or, or_else, object_field}
use stoatpp.Models.Member.{member_from_json}
use stoatpp.Models.Server.{server_from_json}
use stoatpp.Models.User.{User}
use stoatpp.Models.Channel.{channel_from_json}
use stoatpp.Events.{message_from_json}
use stoatpp.Events.Event.{
  Event, ready, message, message_react, message_unreact, channel_create, channel_update,
  channel_delete, server_create, server_update, server_delete, server_member_join,
  server_member_leave, server_member_update, user_update, server_role_update, server_role_delete,
  user_settings_update, user_presence_update, webhook_update, voice_state_update,
  channel_start_typing, channel_stop_typing, error,
}
use stoatpp.Gateway.Fields.{
  Built, thrown, built, text_or_empty, value_or_null, required_text, update_of, message_update_of,
  message_delete_of, react_of, member_update_of, role_server_id,
}
use stoatpp.Gateway.Ready.{ready_of, role_create_of, role_update_of}

module _ (J : JsonLib) where
  -- `error`, or else `error_id`
  abbrev error_of : J.Json → Event J
  error_of j =
      error
        (value_or (or_else (string_field J j (lit "error")) (string_field J j (lit "error_id"))) [])

  -- The object `k`, or else the event object itself
  abbrev part_or_whole : J.Json → Text → J.Json
  part_or_whole j k = value_or (object_field J j k) j

  abbrev join_of : J.Json → Event J
  join_of j =
      server_member_join (text_or_empty J j (lit "id")) (text_or_empty J j (lit "user"))
        (member_from_json J (if J.contains j (lit "member") then J.field j (lit "member") else j))

  abbrev settings_of : J.Json → Built J
  settings_of j = elim (required_text J j (lit "id")) [
    | none ↦ thrown
    | some id ↦ elim (required_text J j (lit "key")) [
      | none ↦ thrown
      | some key ↦ built (user_settings_update id key (value_or_null J j (lit "value")))
    ]
  ]

  abbrev presence_of : J.Json → Built J
  presence_of j = elim (required_text J j (lit "id")) [
    | none ↦ thrown
    | some id ↦ elim (required_text J j (lit "status")) [
      | none ↦ thrown
      | some status ↦ built (user_presence_update id status (string_field J j (lit "text")))
    ]
  ]

  -- Its last field is `type`, which is the name of the event.
  abbrev webhook_of : J.Json → Built J
  webhook_of j = elim (required_text J j (lit "channel_id")) [
    | none ↦ thrown
    | some channel_id ↦ elim (required_text J j (lit "webhook_id")) [
      | none ↦ thrown
      | some webhook_id ↦ elim (required_text J j (lit "type")) [
        | none ↦ thrown
        | some kind ↦ built (webhook_update channel_id webhook_id kind)
      ]
    ]
  ]

  abbrev voice_state_of : J.Json → Built J
  voice_state_of j = elim (required_text J j (lit "channel_id")) [
    | none ↦ thrown
    | some channel_id ↦ elim (required_text J j (lit "user_id")) [
      | none ↦ thrown
      | some user_id ↦
          built
            (voice_state_update channel_id user_id (value_or (bool_field J j (lit "joined")) false))
    ]
  ]

  abbrev pub Branch : Type 0
  Branch = Text × (J.Json → Built J)

  -- The branches in the order of the code: the name of the event, and what it makes of the object. The
  -- code fetched the user `self` when it connected.
  abbrev pub message_branches : User J → List Branch
  message_branches self =
      (lit "Error", λ j. built (error_of j))
      ∷ (lit "Ready", λ j. built (ready (ready_of J self j)))
      ∷ (lit "Message", λ j. built (message (message_from_json J j)))
      ∷ (lit "MessageUpdate", λ j. built (message_update_of J j))
      ∷ (lit "MessageDelete", λ j. built (message_delete_of J j))
      ∷ (lit "MessageReact", λ j. built (message_react (react_of J j)))
      ∷ (lit "MessageUnreact", λ j. built (message_unreact (react_of J j)))
      ∷ []

  abbrev pub channel_branches : List Branch
  channel_branches =
      (
        lit "ChannelCreate",
        λ j. built (channel_create (channel_from_json J (part_or_whole j (lit "channel"))) j),
      )
      ∷ (lit "ChannelUpdate", λ j. built (channel_update (update_of J j)))
      ∷ (lit "ChannelDelete", λ j. built (channel_delete (text_or_empty J j (lit "id"))))
      ∷ (
        lit "ServerCreate",
        λ j. built (server_create (server_from_json J (part_or_whole j (lit "server"))) j),
      )
      ∷ (lit "ServerUpdate", λ j. built (server_update (update_of J j)))
      ∷ (lit "ServerDelete", λ j. built (server_delete (text_or_empty J j (lit "id"))))
      ∷ []

  abbrev pub member_branches : List Branch
  member_branches =
      (lit "ServerMemberJoin", λ j. built (join_of j))
      ∷ (
        lit "ServerMemberLeave",
        λ j.
            built
              (server_member_leave (text_or_empty J j (lit "id")) (text_or_empty J j (lit "user"))),
      )
      ∷ (lit "ServerMemberUpdate", λ j. built (server_member_update (member_update_of J j)))
      ∷ (lit "UserUpdate", λ j. built (user_update (update_of J j)))
      ∷ (
        lit "ChannelStartTyping",
        λ j.
            built (
              channel_start_typing (text_or_empty J j (lit "id")) (text_or_empty J j (lit "user"))),
      )
      ∷ (
        lit "ChannelStopTyping",
        λ j.
            built
              (channel_stop_typing (text_or_empty J j (lit "id")) (text_or_empty J j (lit "user"))),
      )
      ∷ []

  abbrev pub role_branches : List Branch
  role_branches =
      (lit "ServerRoleCreate", role_create_of J)
      ∷ (lit "ServerRoleUpdate", λ j. built (server_role_update (role_update_of J j)))
      ∷ (
        lit "ServerRoleDelete",
        λ j. built (server_role_delete (role_server_id J j) (text_or_empty J j (lit "role_id"))),
      )
      ∷ (lit "UserSettingsUpdate", settings_of)
      ∷ (lit "UserPresenceUpdate", presence_of)
      ∷ (lit "WebhookUpdate", webhook_of)
      ∷ (lit "VoiceStateUpdate", voice_state_of)
      ∷ []

  -- The first branch whose name is the type of the event.
  unfoldable pub find_branch : Text → List Branch → Option (J.Json → Built J)
  find_branch type [] = none
  find_branch type ((name, make) ∷ branches) =
      if text_eq type name then some make else find_branch type branches

  -- `none` where the code has no branch for the type.
  unfoldable pub event_of : User J → Text → J.Json → Option (Built J)
  unfolding find_branch
  event_of self type j =
      let branches =
        message_branches self ++ channel_branches ++ member_branches ++ role_branches in
      elim (find_branch type branches) [ none ↦ none | some make ↦ some (make j) ]
