-- ===== src/Commands/Cooldown.antt =====
-- The cooldown test of `dispatch_command` in src/cluster/commands.cpp. The steady clock is read in
-- milliseconds.
pub mod Spacing
use stoatpp.Prelude.{ℕ, ◌-◌, ◌/◌, Bool, Option, none, some, [], ltb, if◌then◌else◌}
use stoatpp.Prelude.Int.{pos, pos_part}
use stoatpp.Text.{Text}
use stoatpp.Dict.{Dict, lookup, insert}
use stoatpp.Json.{value_or}
use stoatpp.Commands.State.{Command}

-- The runs of one command; `operator[]` makes an empty map where there is none.
abbrev pub runs_of : Dict (Dict ℕ) → Text → Dict ℕ
runs_of table name = value_or (lookup name table) []

-- `duration_cast<seconds>(now - last)`
abbrev pub elapsed_seconds : ℕ → ℕ → ℕ
elapsed_seconds now last = (now - last) / 1000

-- The seconds that the user still waits, where the command is cooling down.
unfoldable pub remaining_cooldown : Dict (Dict ℕ) → Command → Text → ℕ → Option ℕ
remaining_cooldown table cmd user now = elim (lookup user (runs_of table cmd.name)) [
  | none ↦ none
  | some last ↦
      if ltb (elapsed_seconds now last) (pos_part cmd.cooldown_seconds)
      then some (pos_part cmd.cooldown_seconds - elapsed_seconds now last)
      else none
]

-- `cmd_cooldowns[msg.author.id] = now`
unfoldable pub record_run : Dict (Dict ℕ) → Command → Text → ℕ → Dict (Dict ℕ)
record_run table cmd user now = insert cmd.name (insert user now (runs_of table cmd.name)) table

-- The new table and, where the run is refused, the seconds that remain.
unfoldable pub check_cooldown : Dict (Dict ℕ) → Command → Text → ℕ → Dict (Dict ℕ) × Option ℕ
unfolding remaining_cooldown record_run
check_cooldown table cmd user now =
    if ltb 0 (pos_part cmd.cooldown_seconds)
    then elim (remaining_cooldown table cmd user now) [
      | some r ↦ (table, some r)
      | none ↦ (record_run table cmd user now, none)
    ]
    else (table, none)
