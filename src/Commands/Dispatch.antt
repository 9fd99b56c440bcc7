-- ===== src/Commands/Dispatch.antt =====
-- `cluster::dispatch_command` of src/cluster/commands.cpp. `fetch_member` answers on another thread: the
-- dispatch ends with the effect `fetch_member`, and `on_member_fetched` is the callback.
pub mod Authority
pub mod Counting
pub mod Direct
use stoatpp.Prelude.{
  ℕ, suc, Bool, true, false, Option, none, some, List, [], ◌∷◌, ltb, if◌then◌else◌, not, ◌&&◌,
  is_nil, drop, length,
}
use stoatpp.Prelude.Int.{ℤ, pos_part}
use stoatpp.Text.{Text, lit}
use stoatpp.Dict.{lookup, insert}
use stoatpp.Json.{JsonLib, object_field}
use stoatpp.Models.Role.{pattern64}
use stoatpp.Models.Member.{Member}
use stoatpp.Models.User.{User, user_from_json}
use stoatpp.Events.{Message}
use stoatpp.Cache.State.{Cache}
use stoatpp.Cache.Reads.{get_channel, get_server}
use stoatpp.Permissions.{has_permission}
use stoatpp.Commands.State.{
  CommandRunResult, deny, allow, allow_bypass_permissions, Command, Hooks, Bot, Failure,
  member_fetch_failed, server_resolve_failed, permission_denied, server_only, Pending, Effect,
  run_callback, fetch_member, cooldown_notice, command_error, send_message,
}
use stoatpp.Commands.Parse.{matched_prefix, words, command_word, argument_words}
use stoatpp.Commands.Match.{find_command}
use stoatpp.Commands.Cooldown.{check_cooldown}
use stoatpp.Commands.Suggest.{DoubleLib, suggest}

module _ (J : JsonLib) where
  abbrev pub preprocess : Hooks J → Message J → Message J
  preprocess hooks msg = elim hooks.message_preprocessor [ some f ↦ f msg | none ↦ msg ]

  -- A message without a server takes its channel's.
  abbrev pub resolve_server : Cache J → Message J → Message J
  resolve_server c msg =
      if is_nil msg.server_id && not (is_nil msg.channel_id)
      then elim (get_channel J c msg.channel_id) [
        | none ↦ msg
        | some chan ↦ elim chan.server [ none ↦ msg | some s ↦ record msg { server_id = s } ]
      ]
      else msg

  abbrev pub put_user : Cache J → User J → Cache J
  put_user c u = record c { user_cache = insert u.id u c.user_cache }

  -- The author and the object `user` of the message are cached.
  abbrev pub note_users : Cache J → Message J → Cache J
  note_users c msg =
      let noted = if not (is_nil msg.author.username) then put_user c msg.author else c in
      elim (object_field J msg.raw (lit "user")) [
        | none ↦ noted
        | some u ↦ put_user noted (user_from_json J u)
      ]

  abbrev pub prefixes_of : Hooks J → Message J → List Text
  prefixes_of hooks msg = elim hooks.prefix_resolver [
    | some f ↦ f msg
    | none ↦ hooks.command_prefix ∷ []
  ]

  unfoldable pub verdict : Hooks J → Pending J → Option (Member J) → CommandRunResult
  verdict hooks p m = elim hooks.command_run_handler [
    | some f ↦ f p.msg p.command m p.args
    | none ↦ allow
  ]

  abbrev pub report : Hooks J → Pending J → Failure → List (Effect J)
  report hooks p failure =
      if hooks.command_error_handler then command_error p.msg p.command failure ∷ [] else []

  -- `commands_executed_++; cmd_obj.callback(...)`
  abbrev pub execute : Bot J → Pending J → Bot J × List (Effect J)
  execute b p = (record b { commands_executed = suc b.commands_executed }, run_callback p ∷ [])

  -- The permission test, before a command runs in a server.
  abbrev pub permit : Hooks J → Bot J → Pending J → Member J → Bot J × List (Effect J)
  permit hooks b p m =
      if ltb 0 (pos_part p.command.required_permissions)
      then elim (get_server J b.cache p.msg.server_id) [
        | none ↦ (b, report hooks p server_resolve_failed)
        | some server ↦
            if has_permission J server m (pattern64 p.command.required_permissions)
            then execute b p
            else (b, report hooks p permission_denied)
      ]
      else execute b p

  -- The callback of `fetch_member`; `none` is a fetch that failed.
  unfoldable pub on_member_fetched :
      Hooks J → Bot J → Pending J → Option (Member J) → Bot J × List (Effect J)
  on_member_fetched hooks b p none = (b, report hooks p member_fetch_failed)
  on_member_fetched hooks b p (some m) = elim (verdict hooks p (some m)) [
    | deny ↦ (b, [])
    | allow_bypass_permissions ↦ execute b p
    | allow ↦ permit hooks b p m
  ]

  -- A message outside any server.
  unfoldable pub dispatch_direct : Hooks J → Bot J → Pending J → Bot J × List (Effect J)
  dispatch_direct hooks b p = elim (verdict hooks p none) [
    | deny ↦ (b, [])
    | allow_bypass_permissions ↦ execute b p
    | allow ↦
        if ltb 0 (pos_part p.command.required_permissions)
        then (b, report hooks p server_only)
        else execute b p
  ]

  -- A command that was found: its cooldown, then the server's or the direct branch.
  unfoldable pub dispatch_found : Hooks J → Bot J → ℕ → Pending J → Bot J × List (Effect J)
  dispatch_found hooks b now p =
      let (table, refusal) = check_cooldown b.command_cooldowns p.command p.msg.author.id now in
      elim refusal [
        | some remaining ↦ (
          b,
          if hooks.command_cooldown_handler
              then cooldown_notice p.msg p.command remaining ∷ []
              else [],
        )
        | none ↦
            let started = record b { command_cooldowns = table } in
            if not (is_nil p.msg.server_id)
            then (started, fetch_member p ∷ [])
            else dispatch_direct hooks started p
      ]

  unfoldable pub dispatch_command :
      DoubleLib → Hooks J → Bot J → ℕ → Message J → Bot J × List (Effect J)
  dispatch_command D hooks b now arrived =
      let msg = resolve_server b.cache (preprocess hooks arrived) in
      let b = record b { cache = note_users b.cache msg } in
      elim (matched_prefix msg.content (prefixes_of hooks msg)) [
        | none ↦ (b, [])
        | some prefix ↦
            let input = words (drop (length prefix) msg.content) in
            let cmd = command_word input in
            elim (find_command hooks.case_insensitive_commands cmd b.registered_commands) [
              | some c ↦ dispatch_found hooks b now (record {
                msg = record msg { prefix = prefix };
                command = c;
                args = argument_words input;
              })
              | none ↦ elim (suggest J D hooks msg cmd b.registered_commands) [
                | some text ↦ (b, send_message msg.channel_id text ∷ [])
                | none ↦ (b, [])
              ]
            ]
      ]
