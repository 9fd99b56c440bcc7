-- ===== src/Commands/Parse.antt =====
-- The text side of `dispatch_command` in src/cluster/commands.cpp: the prefix, and `std::stringstream`'s
-- words of the rest.
pub mod Prefix
pub mod Words
use stoatpp.Prelude.{
  ℕ, Bool, Option, none, some, List, [], ◌∷◌, ◌++◌, ◌==◌, ltb, leb, ◌&&◌, ◌||◌, not, if◌then◌else◌,
  length, drop, is_nil,
}
use stoatpp.Text.{Text, starts_with}

-- `std::sort` by `a.size() > b.size()`. Where two prefixes have one length the order is not specified;
-- here the earlier stays first.
abbrev pub longer_first : Text → List Text → List Text
longer_first p [] = p ∷ []
longer_first p (q ∷ qs) =
    let rest = longer_first p qs in if ltb (length p) (length q) then q ∷ rest else p ∷ q ∷ qs

unfoldable pub sort_prefixes : List Text → List Text
sort_prefixes [] = []
sort_prefixes (p ∷ ps) = longer_first p (sort_prefixes ps)

-- The loop over the sorted prefixes: the first that is not empty and starts the content.
unfoldable pub first_match : Text → List Text → Option Text
first_match content [] = none
first_match content (p ∷ ps) =
    let rest = first_match content ps in
    if not (is_nil p) && starts_with content p then some p else rest

unfoldable pub matched_prefix : Text → List Text → Option Text
unfolding sort_prefixes first_match
matched_prefix content prefixes = first_match content (sort_prefixes prefixes)

-- `std::isspace` in the "C" locale.
abbrev pub is_space : ℕ → Bool
is_space c = c == b' ' || (leb 9 c && leb c 13)

-- The words that `ss >> word` reads until it fails; `word` is the word that is being read.
unfoldable pub words_from : Text → Text → List Text
words_from word [] = if is_nil word then [] else word ∷ []
words_from word (c ∷ rest) =
    let inside = words_from (word ++ c ∷ []) rest in
    let after = words_from [] rest in
    if is_space c then (if is_nil word then after else word ∷ after) else inside

unfoldable pub words : Text → List Text
unfolding words_from
words s = words_from [] s

-- `ss >> cmd` leaves `cmd` empty if there is no word; the other words are the arguments.
abbrev pub command_word : List Text → Text
command_word [] = []
command_word (w ∷ ws) = w

abbrev pub argument_words : List Text → List Text
argument_words [] = []
argument_words (w ∷ ws) = ws
