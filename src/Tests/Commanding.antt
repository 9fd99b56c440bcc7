-- ===== src/Tests/Commanding.antt =====
-- Uses of the theorems on commands.
use stoatpp.Prelude.{
  ◌≡◌, refl, ◌↔◌, ◌≤◌, true, none, some, [], ◌∷◌, arith, Every, ℕ, List, ◌-◌, ◌/◌, ltb, leb,
}
use stoatpp.Text.{Text, lit}
use stoatpp.Commands.Distance.{levenshtein_distance}
use stoatpp.Commands.Distance.Edits.{Edit, levenshtein_distance_optimal}
use stoatpp.Commands.Parse.{matched_prefix, words}
use stoatpp.Commands.Parse.Prefix.{IsLongest, matched_prefix-IsLongest}
use stoatpp.Commands.Parse.Words.{IsWord, join_words, words_correct}
use stoatpp.Commands.Match.{find_command}
use stoatpp.Commands.Match.Priority.{Finds, find_command-Finds}
use stoatpp.Commands.Cooldown.Spacing.{Attempt, admitted, Ordered, Spaced, admitted-Spaced}
use stoatpp.Commands.Suggest.{DoubleLib}
use stoatpp.Commands.Dispatch.{on_member_fetched, dispatch_command}
use stoatpp.Commands.Dispatch.Authority.{runs, Counted, Authorized, on_member_fetched_iff}
use stoatpp.Events.{Message}
use stoatpp.Commands.Dispatch.Counting.{dispatch_command-Counted}
use stoatpp.Tests.Sample.{
  sample_json, alice, ban, sample_hooks, sample_bot, sample_message, sample_pending,
}

kitten : levenshtein_distance (lit "kitten") (lit "sitting") ≡ 3
unfolding levenshtein_distance
kitten = refl

levenshtein_distance_optimal_example :
    Edit (lit "pin") (lit "ping") (levenshtein_distance (lit "pin") (lit "ping"))
    × ((n : ℕ)
        → Edit (lit "pin") (lit "ping") n
        → levenshtein_distance (lit "pin") (lit "ping") ≤ n)
levenshtein_distance_optimal_example = levenshtein_distance_optimal (lit "pin") (lit "ping")

abbrev sample_prefixes : List Text
sample_prefixes = lit "!" ∷ lit "!!" ∷ []

longest : matched_prefix (lit "!!ban bob") sample_prefixes ≡ some (lit "!!")
unfolding matched_prefix stoatpp.Text.starts_with
longest = refl

unmatched : matched_prefix (lit "hello") sample_prefixes ≡ none
unfolding matched_prefix stoatpp.Text.starts_with
unmatched = refl

matched_prefix-IsLongest_example :
    IsLongest (lit "!!ban bob") sample_prefixes (matched_prefix (lit "!!ban bob") sample_prefixes)
matched_prefix-IsLongest_example = matched_prefix-IsLongest (lit "!!ban bob") sample_prefixes

sample_words-IsWord : Every IsWord (lit "ban" ∷ lit "bob" ∷ [])
sample_words-IsWord = ((refl, (refl, (refl, (refl, tt)))), ((refl, (refl, (refl, (refl, tt)))), tt))

words_correct_example :
    (words (join_words (lit "ban" ∷ lit "bob" ∷ [])) ≡ lit "ban" ∷ lit "bob" ∷ [])
    × Every IsWord (words (lit "ban  bob"))
words_correct_example =
    words_correct (lit "ban" ∷ lit "bob" ∷ []) (lit "ban  bob") sample_words-IsWord

find_command-Finds_example :
    Finds true (lit "BAN") (ban ∷ []) (find_command true (lit "BAN") (ban ∷ []))
find_command-Finds_example = find_command-Finds true (lit "BAN") (ban ∷ [])

abbrev attempt_at : ℕ → Attempt
attempt_at t = record { command = ban; user = lit "alice"; time = t }

second_refused :
    admitted [] (attempt_at 1000 ∷ attempt_at 2000 ∷ attempt_at 6000 ∷ [])
    ≡ attempt_at 1000 ∷ attempt_at 6000 ∷ []
unfolding admitted stoatpp.Commands.Cooldown.check_cooldown stoatpp.Dict.lookup stoatpp.Dict.insert
    stoatpp.Text.text_eq
second_refused = refl

sample_attempts-Ordered : Ordered 0 (attempt_at 1000 ∷ attempt_at 2000 ∷ attempt_at 6000 ∷ [])
sample_attempts-Ordered = (omega arith, (omega arith, (omega arith, tt)))

admitted-Spaced_example :
    Spaced (admitted [] (attempt_at 1000 ∷ attempt_at 2000 ∷ attempt_at 6000 ∷ []))
admitted-Spaced_example =
    admitted-Spaced [] 0 (attempt_at 1000 ∷ attempt_at 2000 ∷ attempt_at 6000 ∷ [])
      sample_attempts-Ordered

on_member_fetched_iff_example :
    (runs sample_json
        (on_member_fetched sample_json sample_hooks sample_bot sample_pending (some alice)).1
      ≡ 1)
    ↔ Authorized sample_json sample_hooks sample_bot sample_pending alice
on_member_fetched_iff_example =
    on_member_fetched_iff sample_json sample_hooks sample_bot sample_pending alice

-- Natural numbers in the place of `double`: no suggestion is exact, but the dispatch runs.
abbrev whole_numbers : DoubleLib
whole_numbers = record {
  Double = ℕ;
  literal = λ s. 0;
  of_nat = λ n. n;
  minus = λ a b. a - b;
  over = λ a b. a / b;
  gt = λ a b. ltb b a;
  ge = λ a b. leb b a;
}

dispatch_command-Counted_example :
    Counted sample_json sample_bot
      (dispatch_command sample_json whole_numbers sample_hooks sample_bot 7000 sample_message)
    × Counted sample_json sample_bot
        (on_member_fetched sample_json sample_hooks sample_bot sample_pending (some alice))
dispatch_command-Counted_example =
    dispatch_command-Counted sample_json sample_hooks whole_numbers sample_bot 7000 sample_message
      sample_pending (some alice)

-- The same message, sent outside a server.
abbrev private_message : Message sample_json
private_message = record sample_message { server_id = []; channel_id = lit "dm" }
