-- ===== src/Help.antt =====
-- Pages that are turned by reactions: the default help command of src/cluster/commands.cpp and the paginator of
-- include/stoatpp/utils/paginator.h.
pub mod Menu
pub mod Paginator
pub mod Pages
pub mod Range
pub mod Sessions
use stoatpp.Prelude.{
  ℕ, zero, suc, ◌+◌, ◌-◌, Bool, true, false, List, [], ◌∷◌, if◌then◌else◌, ◌||◌, ltb,
}
use stoatpp.Text.{Text, text_eq}
use stoatpp.Json.{JsonLib}
use stoatpp.Models.Payload.{MessagePayload}

-- The arrows, in UTF-8. The first of each is the second behind a variation selector.
abbrev pub left_arrow : Text
left_arrow = 0xE2 ∷ 0xAC ∷ 0x85 ∷ []

abbrev pub right_arrow : Text
right_arrow = 0xE2 ∷ 0x9E ∷ 0xA1 ∷ []

abbrev left_arrow_emoji : Text
left_arrow_emoji = 0xE2 ∷ 0xAC ∷ 0x85 ∷ 0xEF ∷ 0xB8 ∷ 0x8F ∷ []

abbrev right_arrow_emoji : Text
right_arrow_emoji = 0xE2 ∷ 0x9E ∷ 0xA1 ∷ 0xEF ∷ 0xB8 ∷ 0x8F ∷ []

abbrev left_triangle : Text
left_triangle = 0xE2 ∷ 0x97 ∷ 0x80 ∷ []

abbrev right_triangle : Text
right_triangle = 0xE2 ∷ 0x96 ∷ 0xB6 ∷ []

unfoldable pub is_left : Text → Bool
unfolding text_eq
is_left emoji_id =
    text_eq emoji_id left_arrow_emoji
    || (text_eq emoji_id left_triangle || text_eq emoji_id left_arrow)

unfoldable pub is_right : Text → Bool
unfolding text_eq
is_right emoji_id =
    text_eq emoji_id right_arrow_emoji
    || (text_eq emoji_id right_triangle || text_eq emoji_id right_arrow)

-- The page to the left and the page to the right, of a number of pages that is not 0.
unfoldable pub page_left : ℕ → ℕ → ℕ
page_left max_pages page = if ltb 0 page then page - 1 else max_pages - 1

unfoldable pub page_right : ℕ → ℕ → ℕ
page_right max_pages page = if ltb page (max_pages - 1) then page + 1 else 0

-- What the handlers ask of the bot: messages sent and edited (channel, message), reactions added (channel, message,
-- emoji) and taken away (and the user).
pub data PageEffect (J : JsonLib) : Type 0 where
  page_sent : Text → MessagePayload J → PageEffect J
  page_edited : Text → Text → MessagePayload J → PageEffect J
  reaction_added : Text → Text → Text → PageEffect J
  reaction_removed : Text → Text → Text → Text → PageEffect J
