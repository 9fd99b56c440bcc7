-- ===== src/Commands/Match.antt =====
-- The two passes of `dispatch_command` that look a command up.
pub mod Priority
use stoatpp.Prelude.{Bool, true, false, Option, none, some, List, [], ◌∷◌, ◌||◌, map, if◌then◌else◌}
use stoatpp.Text.{Text, text_eq}
use stoatpp.Commands.Distance.{to_lower}
use stoatpp.Commands.State.{Command}

-- A word as it is compared: in lower case if matching ignores case.
abbrev pub folded : Bool → Text → Text
folded insensitive s = if insensitive then map to_lower s else s

-- Pass 1: the first command of this name.
unfoldable pub find_by_name : Bool → Text → List Command → Option Command
find_by_name insensitive word [] = none
find_by_name insensitive word (c ∷ cs) =
    if text_eq (folded insensitive c.name) word then some c else find_by_name insensitive word cs

abbrev pub has_alias : Bool → Text → List Text → Bool
has_alias insensitive word [] = false
has_alias insensitive word (a ∷ aliases) =
    text_eq (folded insensitive a) word || has_alias insensitive word aliases

-- Pass 2: the first command with this alias.
unfoldable pub find_by_alias : Bool → Text → List Command → Option Command
find_by_alias insensitive word [] = none
find_by_alias insensitive word (c ∷ cs) =
    if has_alias insensitive word c.aliases then some c else find_by_alias insensitive word cs

unfoldable pub find_command : Bool → Text → List Command → Option Command
unfolding find_by_name find_by_alias
find_command insensitive cmd commands =
    let word = folded insensitive cmd in
    elim (find_by_name insensitive word commands) [
      | some c ↦ some c
      | none ↦ find_by_alias insensitive word commands
    ]
