-- ===== src/Help/Menu.antt =====
-- `cluster::setup_default_help` of src/cluster/commands.cpp.
use stoatpp.Prelude.{
  ℕ, ◌+◌, ◌*◌, ◌/◌, Bool, true, false, Option, none, some, List, [], ◌∷◌, ◌++◌, if◌then◌else◌, ◌&&◌,
  not, is_nil, ltb, ◌==◌, length, take, drop,
}
use stoatpp.Prelude.Int.{pos}
use stoatpp.Text.{Text, lit, text_eq}
use stoatpp.Dict.{Dict, lookup, insert}
use stoatpp.Json.{JsonLib, value_or}
use stoatpp.Models.User.{no_user}
use stoatpp.Events.{Message, MessageReact}
use stoatpp.Cache.State.{Cache}
use stoatpp.Commands.State.{Command, Hooks}
use stoatpp.Rest.Numerals.{to_string}
use stoatpp.Moderation.Messages.{plain_payload}
use stoatpp.Help.{
  left_arrow, right_arrow, is_left, is_right, page_left, page_right, PageEffect, page_sent,
  page_edited, reaction_added, reaction_removed,
}

-- `HelpSession`; the page and the number of pages are never negative.
pub record HelpSession : Type 0 where
  pub current_page : ℕ
  pub max_pages : ℕ
  pub user_id : Text

-- `a.name < b.name`, by bytes
unfoldable pub text_less : Text → Text → Bool
text_less s [] = false
text_less [] (y ∷ t) = true
text_less (x ∷ s) (y ∷ t) = let rest = text_less s t in if x == y then rest else ltb x y

-- `std::sort` by name. Commands of the same name, which it may leave in any order, stay in theirs.
abbrev pub insert_command : Command → List Command → List Command
insert_command c [] = c ∷ []
insert_command c (d ∷ cmds) =
    let rest = insert_command c cmds in if text_less d.name c.name then d ∷ rest else c ∷ d ∷ cmds

unfoldable pub sorted_commands : List Command → List Command
unfolding text_less
sorted_commands [] = []
sorted_commands (c ∷ cmds) = insert_command c (sorted_commands cmds)

-- `(cmds.size() + 2) / 3`, and at least 1
unfoldable pub page_count : ℕ → ℕ
page_count size = let pages = (size + 2) / 3 in if pages == 0 then 1 else pages

-- The commands of a page: those from `page * 3` on, three at most.
unfoldable pub page_commands : List Command → ℕ → List Command
page_commands cmds page = take 3 (drop (page * 3) cmds)

abbrev alias_list : Text → List Text → Text
alias_list prefix [] = []
alias_list prefix (a ∷ []) = lit "`" ++ (prefix ++ (a ++ lit "`"))
alias_list prefix (a ∷ b ∷ aliases) =
    lit "`" ++ (prefix ++ (a ++ (lit "`, " ++ alias_list prefix (b ∷ aliases))))

abbrev spaced : List Text → Text
spaced [] = []
spaced (a ∷ args) = lit " " ++ (a ++ spaced args)

abbrev bullet : Text
bullet = 0xE2 ∷ 0x80 ∷ 0xA2 ∷ []

abbrev syntax : Text → Command → Text
syntax prefix c =
    if not (is_nil c.args)
    then prefix ++ (c.name ++ spaced c.args)
    else if not (is_nil c.usage)
    then c.usage
    else prefix ++ c.name

-- What the menu says of a command.
unfoldable pub command_entry : Text → Command → Text
command_entry prefix c =
    bullet
    ++ (lit " **"
        ++ (prefix
            ++ (c.name
                ++ (lit "**"
                    ++ ((if is_nil c.aliases
                          then []
                          else lit " (aliases: " ++ (alias_list prefix c.aliases ++ lit ")"))
                        ++ (lit "\n  *syntax:* `"
                            ++ (syntax prefix c
                                ++ (lit "`\n"
                                    ++ ((if is_nil c.description
                                          then []
                                          else lit "  *description:* "
                                            ++ (c.description ++ lit "\n"))
                                        ++ lit "\n")))))))))

abbrev entries : Text → List Command → Text
entries prefix [] = []
entries prefix (c ∷ cmds) = command_entry prefix c ++ entries prefix cmds

unfoldable pub menu_text : Text → List Command → ℕ → Text
unfolding command_entry page_commands
menu_text prefix cmds page =
    lit "here is a list of all registered commands:\n\n" ++ entries prefix (page_commands cmds page)

unfoldable pub menu_title : ℕ → ℕ → Text
unfolding to_string
menu_title page max_pages =
    lit "stoat++ default help menu (page "
    ++ (to_string (pos (page + 1)) ++ (lit " of " ++ (to_string (pos max_pages) ++ lit ")")))

module _ (J : JsonLib) where
  -- `help_sessions_` and what the handlers read: `config_.default_help_color`, the other settings, the commands
  -- that are registered, the cache and the id of the bot's user.
  pub record HelpState : Type 0 where
    pub help_sessions : Dict HelpSession
    pub help_color : Text
    pub hooks : Hooks J
    pub registered_commands : List Command
    pub cache : Cache J
    pub self_id : Text

  -- The configured prefix, or the resolver's first where it gives any.
  abbrev first_or : Text → List Text → Text
  first_or prefix [] = prefix
  first_or prefix (p ∷ resolved) = p

  abbrev pub help_prefix : HelpState → Message J → Text
  help_prefix h msg = elim h.hooks.prefix_resolver [
    | none ↦ h.hooks.command_prefix
    | some resolver ↦ first_or h.hooks.command_prefix (resolver msg)
  ]

  unfoldable pub menu_embed : HelpState → Text → ℕ → ℕ → J.Json
  unfolding menu_text menu_title sorted_commands
  menu_embed h prefix page max_pages =
      let embed = J.with_field J.object (lit "colour") (J.of_text h.help_color) in
      let embed = J.with_field embed (lit "title") (J.of_text (menu_title page max_pages)) in
      J.with_field embed (lit "description")
        (J.of_text (menu_text prefix (sorted_commands h.registered_commands) page))

  -- The command `help`: the first page.
  unfoldable pub help_command : HelpState → Message J → List (PageEffect J)
  unfolding menu_embed page_count
  help_command h msg =
      let max_pages = page_count (length h.registered_commands) in
      page_sent msg.channel_id
        (record (plain_payload J []) { embeds = menu_embed h (help_prefix h msg) 0 max_pages ∷ [] })
      ∷ []

  -- The answer to that message, whose id it gives. The number of pages is that of the time of the command.
  unfoldable pub on_help_sent :
      HelpState → Message J → ℕ → Text → Bool → HelpState × List (PageEffect J)
  unfolding insert
  on_help_sent h msg max_pages res_id success =
      if success && ltb 1 max_pages
      then (
        record h {
          help_sessions =
              insert res_id
                (record { current_page = 0; max_pages = max_pages; user_id = msg.author.id })
                h.help_sessions;
        },
        reaction_added msg.channel_id res_id left_arrow
            ∷ reaction_added msg.channel_id res_id right_arrow
            ∷ [],
      )
      else (h, [])

  -- The message that the resolver is given for a reaction.
  abbrev dummy_message : HelpState → MessageReact → Message J
  dummy_message h e = record {
    id = [];
    channel_id = e.channel_id;
    server_id = elim (lookup e.channel_id h.cache.channel_cache) [
      | none ↦ []
      | some ch ↦ value_or ch.server []
    ];
    author = record (no_user J) { id = e.user_id };
    content = [];
    nonce = [];
    edited = false;
    prefix = [];
    replies = [];
    mentions = [];
    attachments = [];
    raw = J.null;
  }

  -- The page that a reaction turns to.
  unfoldable pub turned : HelpSession → Text → Option ℕ
  unfolding is_left is_right page_left page_right
  turned s emoji_id =
      if is_left emoji_id
      then some (page_left s.max_pages s.current_page)
      else if is_right emoji_id
      then some (page_right s.max_pages s.current_page)
      else none

  abbrev show_page : HelpState → MessageReact → ℕ → ℕ → List (PageEffect J)
  show_page h e page max_pages =
      page_edited e.channel_id e.id (record (plain_payload J (lit " ")) {
        embeds = menu_embed h (help_prefix h (dummy_message h e)) page max_pages ∷ [];
      })
      ∷ reaction_removed e.channel_id e.id e.emoji_id e.user_id
      ∷ []

  abbrev pub turn_page :
      HelpState → HelpSession → MessageReact → Option ℕ → HelpState × List (PageEffect J)
  turn_page h s e none = (h, [])
  turn_page h s e (some page) = (
    record h { help_sessions = insert e.id (record s { current_page = page }) h.help_sessions },
    show_page h e page s.max_pages,
  )

  -- The listener for reactions.
  unfoldable pub on_help_react : HelpState → MessageReact → HelpState × List (PageEffect J)
  unfolding lookup insert text_eq turned menu_embed
  on_help_react h e = elim (lookup e.id h.help_sessions) [
    | none ↦ (h, [])
    | some s ↦
        if text_eq e.user_id h.self_id
        then (h, [])
        else if not (text_eq e.user_id s.user_id)
        then (h, reaction_removed e.channel_id e.id e.emoji_id e.user_id ∷ [])
        else turn_page h s e (turned s e.emoji_id)
  ]
