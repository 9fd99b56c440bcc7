-- ===== src/Commands/Dispatch/Counting.antt =====
-- The counter `commands_executed_` of src/cluster/commands.cpp.
use stoatpp.Prelude.{
  inl, inr, Bool-cases, Option-cases, Option, none, some, arith, ltb, ℕ, is_nil, drop, length,
}
use stoatpp.Prelude.Int.{pos_part}
use stoatpp.Json.{JsonLib}
use stoatpp.Models.Member.{Member}
use stoatpp.Events.{Message}
use stoatpp.Commands.State.{Hooks, Bot, Pending, member_fetch_failed, server_only}
use stoatpp.Commands.Parse.{matched_prefix, words, command_word, argument_words}
use stoatpp.Commands.Match.{find_command}
use stoatpp.Commands.Cooldown.{check_cooldown}
use stoatpp.Commands.Suggest.{DoubleLib, suggest}
use stoatpp.Commands.Dispatch.{
  verdict, on_member_fetched, dispatch_direct, dispatch_found, dispatch_command, note_users,
  preprocess, resolve_server, prefixes_of,
}
use stoatpp.Commands.Dispatch.Authority.{runs-report, verdict_cases, permit-Counted, Counted}

module _ (J : JsonLib) (hooks : Hooks J) where
  pub on_member_fetched-Counted :
      (b : Bot J) (p : Pending J) (o : Option (Member J))
      → Counted J b (on_member_fetched J hooks b p o)
  unfolding on_member_fetched
  on_member_fetched-Counted b p none = omega (arith, runs-report J hooks p member_fetch_failed)
  on_member_fetched-Counted b p (some m) = elim (verdict_cases J (verdict J hooks p (some m))) [
    | inl e ↦ rw (on_member_fetched, e) (omega arith)
    | inr (inl e) ↦ rw (on_member_fetched, e) (permit-Counted J hooks b p m)
    | inr (inr e) ↦ rw (on_member_fetched, e) (omega arith)
  ]

  dispatch_direct-Counted : (b : Bot J) (p : Pending J) → Counted J b (dispatch_direct J hooks b p)
  unfolding dispatch_direct
  dispatch_direct-Counted b p = elim (verdict_cases J (verdict J hooks p none)) [
    | inl e ↦ rw (dispatch_direct, e) (omega arith)
    | inr (inr e) ↦ rw (dispatch_direct, e) (omega arith)
    | inr (inl e) ↦ elim (Bool-cases (ltb 0 (pos_part p.command.required_permissions))) [
      | inl needs ↦
          rw (dispatch_direct, e, needs) (omega (arith, runs-report J hooks p server_only))
      | inr free ↦ rw (dispatch_direct, e, free) (omega arith)
    ]
  ]

  dispatch_found-Counted :
      (b : Bot J) (now : ℕ) (p : Pending J) → Counted J b (dispatch_found J hooks b now p)
  unfolding dispatch_found
  dispatch_found-Counted b now p =
      let started : Bot J = record b {
        command_cooldowns = (check_cooldown b.command_cooldowns p.command p.msg.author.id now).0;
      } in
      elim (Option-cases (check_cooldown b.command_cooldowns p.command p.msg.author.id now).1) [
        | inr (r, e) ↦ elim (Bool-cases hooks.command_cooldown_handler) [
          | inl set ↦ rw (dispatch_found, e, set) (omega arith)
          | inr unset ↦ rw (dispatch_found, e, unset) (omega arith)
        ]
        | inl e ↦ elim (Bool-cases (is_nil p.msg.server_id)) [
          | inl direct ↦ rw (dispatch_found, e, direct) (dispatch_direct-Counted started p)
          | inr served ↦ rw (dispatch_found, e, served) (omega arith)
        ]
      ]

  message-Counted :
      (D : DoubleLib) (b : Bot J) (now : ℕ) (arrived : Message J)
      → Counted J b (dispatch_command J D hooks b now arrived)
  unfolding dispatch_command
  message-Counted D b now arrived =
      let msg = resolve_server J b.cache (preprocess J hooks arrived) in
      let noted : Bot J = record b { cache = note_users J b.cache msg } in
      elim (Option-cases (matched_prefix msg.content (prefixes_of J hooks msg))) [
        | inl e ↦ rw (dispatch_command, e) (omega arith)
        | inr (prefix, e) ↦
            let input = words (drop (length prefix) msg.content) in
            let cmd = command_word input in
            elim (Option-cases
              (find_command hooks.case_insensitive_commands cmd b.registered_commands)) [
                | inr (c, found) ↦
                    rw (dispatch_command, e, found)
                      (dispatch_found-Counted noted now (record {
                        msg = record msg { prefix = prefix };
                        command = c;
                        args = argument_words input;
                      }))
                | inl unknown ↦
                    elim (Option-cases (suggest J D hooks msg cmd b.registered_commands)) [
                      | inl quiet ↦ rw (dispatch_command, e, unknown, quiet) (omega arith)
                      | inr (text, says) ↦ rw (dispatch_command, e, unknown, says) (omega arith)
                    ]
              ]
      ]

  -- `dispatch_command` and the callback of `fetch_member` each raise `commands_executed_` by the number of command
  -- callbacks that they run.
  pub dispatch_command-Counted :
      (D : DoubleLib) (b : Bot J) (now : ℕ) (arrived : Message J) (p : Pending J)
      (fetched : Option (Member J))
      → Counted J b (dispatch_command J D hooks b now arrived)
        × Counted J b (on_member_fetched J hooks b p fetched)
  dispatch_command-Counted D b now arrived p fetched =
      (message-Counted D b now arrived, on_member_fetched-Counted b p fetched)
