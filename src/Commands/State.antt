-- ===== src/Commands/State.antt =====
-- Commands, the part of a cluster that dispatch reads and writes, and what dispatch does to the outside:
-- include/stoatpp/cluster.h. What the bot's author supplies (resolvers, checkers, handlers) is a parameter;
-- calls of handlers that return nothing are recorded as effects.
use stoatpp.Prelude.{ℕ, Bool, Option, List, [], ◌∷◌, ◌++◌}
use stoatpp.Prelude.Int.{ℤ}
use stoatpp.Text.{Text}
use stoatpp.Dict.{Dict, insert}
use stoatpp.Json.{JsonLib}
use stoatpp.Models.Member.{Member}
use stoatpp.Events.{Message}
use stoatpp.Cache.State.{Cache}

pub data CommandRunResult : Type 0 where
  deny allow allow_bypass_permissions : CommandRunResult

-- The callback of a command is known by the command itself.
pub record Command : Type 0 where
  pub name : Text
  pub aliases : List Text
  pub description : Text
  pub usage : Text
  pub args : List Text
  pub category : Text
  pub required_permissions : ℤ
  pub cooldown_seconds : ℤ
  pub subcommands : List Text

-- The fields of `ClientConfig` and the handlers that dispatch consults.
pub record Hooks (J : JsonLib) : Type 0 where
  pub command_prefix : Text
  pub case_insensitive_commands : Bool
  pub prefix_resolver : Option (Message J → List Text)
  pub message_preprocessor : Option (Message J → Message J)
  pub command_run_handler :
      Option (Message J → Command → Option (Member J) → List Text → CommandRunResult)
  pub command_disabled_checker : Option (Message J → Command → Bool)
  -- whether the handler is set
  pub command_cooldown_handler : Bool
  pub command_error_handler : Bool

pub record Bot (J : JsonLib) : Type 0 where
  pub cache : Cache J
  pub registered_commands : List Command
  pub commands : Dict Command
  -- command name, then user id: the time of the last run, in milliseconds
  pub command_cooldowns : Dict (Dict ℕ)
  pub commands_executed : ℕ

pub data Failure : Type 0 where
  member_fetch_failed server_resolve_failed permission_denied server_only : Failure

-- A command that waits for its author's member data.
pub record Pending (J : JsonLib) : Type 0 where
  pub msg : Message J
  pub command : Command
  pub args : List Text

pub data Effect (J : JsonLib) : Type 0 where
  run_callback : Pending J → Effect J
  fetch_member : Pending J → Effect J
  -- the seconds that remain
  cooldown_notice : Message J → Command → ℕ → Effect J
  command_error : Message J → Command → Failure → Effect J
  -- channel and text
  send_message : Text → Text → Effect J

abbrev pub insert_aliases : Command → List Text → Dict Command → Dict Command
insert_aliases cmd [] table = table
insert_aliases cmd (a ∷ aliases) table = insert_aliases cmd aliases (insert a cmd table)

-- `cluster::register_command`
unfoldable pub register_command : (J : JsonLib) → Bot J → Command → Bot J
register_command J b cmd = record b {
  registered_commands = b.registered_commands ++ cmd ∷ [];
  commands = insert_aliases cmd cmd.aliases (insert cmd.name cmd b.commands);
}
