-- ===== src/Tests/Paging.antt =====
-- Pages at concrete inputs: src/cluster/commands.cpp and include/stoatpp/utils/paginator.h.
use mathlib.Core.List.{Perm}
use mathlib.Core.Option
use stoatpp.Prelude.{ℕ, ◌≤◌, ◌<◌, ◌≡◌, refl, true, Option, none, some, List, [], ◌∷◌, length}
use stoatpp.Prelude.Int.{pos}
use stoatpp.Text.{Text, lit}
use stoatpp.Models.Payload.{Embed}
use stoatpp.Commands.State.{Command}
use stoatpp.Help.{PageEffect, right_arrow, left_arrow}
use stoatpp.Help.Menu.{sorted_commands, page_count, page_commands, command_entry}
use stoatpp.Help.Menu.{HelpSession, HelpState}
use stoatpp.Help.Sessions.{HelpAction, help_sent, help_reacted, help_run, help_run_page}
use stoatpp.Dict.{lookup}
use stoatpp.Help.Pages.{shown, shown-Perm}
use stoatpp.Help.Paginator.{
  new_paginator, PageAction, page_added, sending, sent, reacted, page_acts,
}
use stoatpp.Tests.Sample.{sample_json, sample_hooks, sample_cache, sample_message}

abbrev command : Text → Command
command name = record {
  name = name;
  aliases = lit "x" ∷ lit "y" ∷ [];
  description = [];
  usage = [];
  args = lit "<who>" ∷ [];
  category = [];
  required_permissions = pos 0;
  cooldown_seconds = pos 0;
  subcommands = [];
}

abbrev four : List Command
four =
    command (lit "kick")
    ∷ command (lit "ban")
    ∷ command (lit "banner")
    ∷ command (lit "avatar")
    ∷ []

shown-Perm_example :
    Perm (shown (sorted_commands four) (page_count (length four)) 0) four
    × ((page : ℕ) → length (page_commands (sorted_commands four) page) ≤ 3)
shown-Perm_example = shown-Perm four

entry :
    command_entry (lit "!") (command (lit "ban"))
    ≡ 0xE2 ∷ 0x80 ∷ 0xA2 ∷ lit " **!ban** (aliases: `!x`, `!y`)\n  *syntax:* `!ban <who>`\n\n"
unfolding command_entry
entry = refl

abbrev page : Text → Embed
page title = record {
  title = some title;
  description = none;
  url = none;
  icon_url = none;
  colour = none;
  media = none;
}

abbrev leafing : List (PageAction sample_json)
leafing =
    page_added (page (lit "a"))
    ∷ page_added (page (lit "b"))
    ∷ sending (lit "c1") (lit "alice")
    ∷ sent (lit "m1") true
    ∷ reacted (lit "bot") (record {
      id = lit "m1";
      channel_id = lit "c1";
      user_id = lit "alice";
      emoji_id = right_arrow;
    })
    ∷ []

abbrev page_after_run : List (PageAction sample_json) → Option ℕ
page_after_run actions =
    Option.map (λ q. q.0.current_page) (page_acts sample_json actions new_paginator)

leafs : page_after_run leafing ≡ some 1
unfolding page_acts
leafs = refl

-- A paginator that is sent twice has two handlers, and an arrow turns two pages.
turned_twice :
    page_after_run (
      page_added (page (lit "a"))
      ∷ page_added (page (lit "b"))
      ∷ page_added (page (lit "c"))
      ∷ sending (lit "c1") []
      ∷ sent (lit "m1") true
      ∷ sending (lit "c1") []
      ∷ sent (lit "m2") true
      ∷ reacted (lit "bot") (record {
        id = lit "m2";
        channel_id = lit "c1";
        user_id = lit "alice";
        emoji_id = right_arrow;
      })
      ∷ [])
    ≡ some 2
unfolding page_acts
turned_twice = refl

abbrev fresh_help : HelpState sample_json
fresh_help = record {
  help_sessions = [];
  help_color = [];
  hooks = sample_hooks;
  registered_commands = four;
  cache = sample_cache;
  self_id = lit "bot";
}

-- A turn to the left of the first of two pages.
abbrev helping : List (HelpAction sample_json)
helping =
    help_sent sample_message 2 (lit "m1") true
    ∷ help_reacted (record {
      id = lit "m1";
      channel_id = lit "c1";
      user_id = sample_message.author.id;
      emoji_id = left_arrow;
    })
    ∷ []

abbrev second_page : HelpSession
second_page = record { current_page = 1; max_pages = 2; user_id = sample_message.author.id }

opened_help :
    lookup (lit "m1") (help_run sample_json fresh_help helping).help_sessions ≡ some second_page
unfolding help_run stoatpp.Help.Menu.on_help_sent stoatpp.Help.Menu.on_help_react lookup
    stoatpp.Text.text_eq
opened_help = refl

help_run_page_example : 1 < 2
help_run_page_example =
    help_run_page sample_json fresh_help helping (lit "m1") second_page refl opened_help
