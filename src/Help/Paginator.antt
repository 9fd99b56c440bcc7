-- ===== src/Help/Paginator.antt =====
-- include/stoatpp/utils/paginator.h. The callback of an edit, which takes the reaction away, follows at once.
use stoatpp.Prelude.{
  ℕ, zero, suc, ◌+◌, Bool, true, false, Option, none, some, List, [], ◌∷◌, ◌++◌, if◌then◌else◌,
  ◌&&◌, not, is_nil, ltb, length,
}
use stoatpp.Text.{Text, lit, text_eq}
use stoatpp.Json.{JsonLib}
use stoatpp.Models.Payload.{Embed, MessagePayload, embed_to_json}
use stoatpp.Events.{MessageReact}
use stoatpp.Moderation.Messages.{plain_payload}
use stoatpp.Help.{
  left_arrow, right_arrow, is_left, is_right, page_left, page_right, PageEffect, page_sent,
  page_edited, reaction_added, reaction_removed,
}

-- `listeners`: how many reaction handlers it has registered with the bot, which keeps each.
pub record Paginator : Type 0 where
  pub pages : List Embed
  pub channel_id : Text
  pub message_id : Text
  pub owner_user_id : Text
  pub current_page : ℕ
  pub alive : Bool
  pub listeners : ℕ

abbrev pub new_paginator : Paginator
new_paginator = record {
  pages = [];
  channel_id = [];
  message_id = [];
  owner_user_id = [];
  current_page = 0;
  alive = true;
  listeners = 0;
}

-- `add_page`
abbrev pub add_page : Embed → Paginator → Paginator
add_page page p = record p { pages = p.pages ++ page ∷ [] }

-- `pages_[n]`; `none` is a read outside the vector.
unfoldable pub page_at : ℕ → List Embed → Option Embed
page_at n [] = none
page_at zero (page ∷ pages) = some page
page_at (suc n) (page ∷ pages) = page_at n pages

-- The page that an emoji turns to, of a number of pages.
unfoldable pub page_after : ℕ → ℕ → Text → Option ℕ
unfolding is_left is_right page_left page_right
page_after size page emoji_id =
    if is_left emoji_id
    then some (page_left size page)
    else if is_right emoji_id
    then some (page_right size page)
    else none

module _ (J : JsonLib) where
  abbrev page_payload : Text → Embed → MessagePayload J
  page_payload content page = record (plain_payload J content) {
    embeds = embed_to_json J page ∷ [];
  }

  abbrev pub send_first : Text → Text → Paginator → List Embed → Paginator × List (PageEffect J)
  send_first channel_id owner_user_id p [] = (p, [])
  send_first channel_id owner_user_id p (page ∷ pages) = (
    record p { channel_id = channel_id; owner_user_id = owner_user_id; current_page = 0 },
    page_sent channel_id (page_payload (lit " ") page) ∷ [],
  )

  -- `send`
  unfoldable pub send : Text → Text → Paginator → Paginator × List (PageEffect J)
  unfolding embed_to_json
  send channel_id owner_user_id p = send_first channel_id owner_user_id p p.pages

  -- The answer to that message.
  unfoldable pub on_sent : Text → Bool → Paginator → Paginator × List (PageEffect J)
  on_sent id success p =
      if not (success && p.alive)
      then (p, [])
      else if ltb 1 (length p.pages)
      then (
        record p { message_id = id; listeners = p.listeners + 1 },
        reaction_added p.channel_id id left_arrow ∷ reaction_added p.channel_id id right_arrow ∷ [],
      )
      else (record p { message_id = id }, [])

  abbrev unreact : MessageReact → List (PageEffect J)
  unreact e = reaction_removed e.channel_id e.id e.emoji_id e.user_id ∷ []

  -- A page is shown; a page outside the vector, which the code would read, has none.
  abbrev pub show :
      Paginator → MessageReact → ℕ → Option Embed → Option (Paginator × List (PageEffect J))
  show p e page none = none
  show p e page (some embed) = some (
    record p { current_page = page },
    page_edited e.channel_id e.id (page_payload (lit " ") embed) ∷ unreact e,
  )

  abbrev pub turn_to :
      Paginator → MessageReact → Option ℕ → Option (Paginator × List (PageEffect J))
  turn_to p e none = some (p, unreact e)
  turn_to p e (some page) = show p e page (page_at page p.pages)

  -- One run of a reaction handler that no other disturbs, with the id of the bot's user; nothing in the code keeps two
  -- runs from overlapping. `none`: a read outside the vector of pages.
  unfoldable pub on_page_react :
      Text → MessageReact → Paginator → Option (Paginator × List (PageEffect J))
  unfolding text_eq page_after page_at embed_to_json
  on_page_react self_id e p =
      if not p.alive
      then some (p, [])
      else if not (text_eq e.id p.message_id)
      then some (p, [])
      else if text_eq e.user_id self_id
      then some (p, [])
      else if not (is_nil p.owner_user_id) && not (text_eq e.user_id p.owner_user_id)
      then some (p, unreact e)
      else turn_to p e (page_after (length p.pages) p.current_page e.emoji_id)

  abbrev pub behind :
      List (PageEffect J)
      → Option (Paginator × List (PageEffect J))
      → Option (Paginator × List (PageEffect J))
  behind effects none = none
  behind effects (some (p, more)) = some (p, effects ++ more)

  abbrev pub call_next :
      (Paginator → Option (Paginator × List (PageEffect J)))
      → Option (Paginator × List (PageEffect J))
      → Option (Paginator × List (PageEffect J))
  call_next handlers none = none
  call_next handlers (some (p, effects)) = behind effects (handlers p)

  -- What the bot calls for a reaction: as many handlers as the paginator has registered, each of which acts on it.
  unfoldable pub call_listeners :
      ℕ → Text → MessageReact → Paginator → Option (Paginator × List (PageEffect J))
  unfolding on_page_react
  call_listeners zero self_id e p = some (p, [])
  call_listeners (suc n) self_id e p =
      call_next (call_listeners n self_id e) (on_page_react self_id e p)

  -- What happens to a paginator, in any order, where no two handlers overlap.
  pub data PageAction : Type 0 where
    page_added : Embed → PageAction
    sending : Text → Text → PageAction
    sent : Text → Bool → PageAction
    reacted : Text → MessageReact → PageAction
    destroyed : PageAction

  unfoldable pub page_act : PageAction → Paginator → Option (Paginator × List (PageEffect J))
  unfolding send on_sent call_listeners
  page_act (page_added page) p = some (add_page page p, [])
  page_act (sending channel_id owner) p = some (send channel_id owner p)
  page_act (sent id success) p = some (on_sent id success p)
  page_act (reacted self_id e) p = call_listeners p.listeners self_id e p
  page_act destroyed p = some (record p { alive = false }, [])

  unfoldable pub page_acts : List PageAction → Paginator → Option (Paginator × List (PageEffect J))
  unfolding page_act
  page_acts [] p = some (p, [])
  page_acts (a ∷ actions) p = call_next (page_acts actions) (page_act a p)
