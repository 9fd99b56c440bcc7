-- ===== src/Commands/Dispatch/Direct.antt =====
-- When the dispatch of a message in src/cluster/commands.cpp runs a command at once.
use stoatpp.Prelude.{ℕ, ◌-◌, ◌*◌, ◌≤◌, ◌≡◌, Option, none, some, [], drop, length}
use stoatpp.Prelude.Int.{pos_part}
use stoatpp.Text.{Text}
use stoatpp.Dict.{Dict, lookup}
use stoatpp.Json.{JsonLib}
use stoatpp.Events.{Message}
use stoatpp.Commands.State.{Hooks, Bot, Pending, Command}
use stoatpp.Commands.Parse.{words, argument_words}
use stoatpp.Commands.Cooldown.{runs_of, check_cooldown}
use stoatpp.Commands.Dispatch.{preprocess, resolve_server}
use stoatpp.Commands.Dispatch.Authority.{DirectlyAuthorized}

-- The last run, if there is one, lies as many seconds back, in milliseconds.
abbrev pub Waited : ℕ → ℕ → Option ℕ → Type 0
Waited seconds now none = Unit
Waited seconds now (some last) = seconds * 1000 ≤ now - last

module _ (J : JsonLib) (hooks : Hooks J) where
  -- The message is outside any server, the command's cooldown has passed since its author's last run of it, and
  -- the run handler allows the command.
  abbrev pub RunsAtOnce : Bot J → ℕ → Pending J → Type 0
  RunsAtOnce b now p =
      (p.msg.server_id ≡ [])
      × Waited (pos_part p.command.cooldown_seconds) now
          (lookup p.msg.author.id (runs_of b.command_cooldowns p.command.name))
      × DirectlyAuthorized J hooks p

  module _ (b : Bot J) (now : ℕ) (p : Pending J) where
    abbrev cooled : Bot J
    cooled = record b {
      command_cooldowns = (check_cooldown b.command_cooldowns p.command p.msg.author.id now).0;
    }

  -- The command with the message that `dispatch_command` gives it.
  abbrev pub pending_for : Bot J → Message J → Text → Command → Pending J
  pending_for b arrived prefix c =
      let msg = resolve_server J b.cache (preprocess J hooks arrived) in
      record {
        msg = record msg { prefix = prefix };
        command = c;
        args = argument_words (words (drop (length prefix) msg.content));
      }
