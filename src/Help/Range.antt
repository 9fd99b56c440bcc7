-- ===== src/Help/Range.antt =====
-- The page to the left and the page to the right are pages, and undo one another (src/cluster/commands.cpp and
-- include/stoatpp/utils/paginator.h).
use stoatpp.Prelude.{ℕ, ◌<◌, ◌≡◌, arith}
use stoatpp.Help.{page_left, page_right}

pub page_left-lt : (size page : ℕ) → page < size → page_left size page < size
unfolding page_left
page_left-lt size page h = ground (arith, h)

pub page_right-lt : (size page : ℕ) → page < size → page_right size page < size
unfolding page_right
page_right-lt size page h = ground (arith, h)

-- A page to the right of the page to the left is the page itself.
pub page_right-page_left :
    (size page : ℕ) → page < size → page_right size (page_left size page) ≡ page
unfolding page_left page_right
page_right-page_left size page h = ground (arith, h)
