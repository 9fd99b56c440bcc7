-- ===== src/Commands/Suggest.antt =====
-- "Did you mean": the branch of `dispatch_command` for an unknown command. `double` is a parameter.
use stoatpp.Prelude.{
  ℕ, Bool, true, false, Option, none, some, List, [], ◌∷◌, ◌++◌, map, ltb, ◌==◌, if◌then◌else◌,
  length, is_nil,
}
use stoatpp.Text.{Text, lit}
use stoatpp.Json.{JsonLib}
use stoatpp.Events.{Message}
use stoatpp.Commands.State.{Command, Hooks}
use stoatpp.Commands.Distance.{to_lower, levenshtein_distance}

pub record DoubleLib : Type 1 where
  pub Double : Type 0
  -- the value of a literal
  pub literal : Text → Double
  pub of_nat : ℕ → Double
  pub minus : Double → Double → Double
  pub over : Double → Double → Double
  pub gt : Double → Double → Bool
  pub ge : Double → Double → Bool

-- `operator<` on strings
abbrev pub text_ltb : Text → Text → Bool
text_ltb [] [] = false
text_ltb [] (y ∷ t) = true
text_ltb (x ∷ s) [] = false
text_ltb (x ∷ s) (y ∷ t) =
    let rest = text_ltb s t in if ltb x y then true else if x == y then rest else false

abbrev insert_sorted : Text → List Text → List Text
insert_sorted s [] = s ∷ []
insert_sorted s (t ∷ ts) =
    let rest = insert_sorted s ts in if text_ltb t s then t ∷ rest else s ∷ t ∷ ts

abbrev pub sort_texts : List Text → List Text
sort_texts [] = []
sort_texts (s ∷ ts) = insert_sorted s (sort_texts ts)

-- The loop over `suggestions`: ", " between them and " or " before the last.
abbrev pub join_suggestions : List Text → Text
join_suggestions [] = []
join_suggestions (s ∷ []) = s
join_suggestions (s ∷ t ∷ []) = s ++ lit " or " ++ t
join_suggestions (s ∷ t ∷ u ∷ ts) = s ++ lit ", " ++ join_suggestions (t ∷ u ∷ ts)

abbrev pub suggestion_text : List Text → Text
suggestion_text suggestions = lit "did you mean **" ++ join_suggestions suggestions ++ lit "**?"

abbrev pub max_ℕ : ℕ → ℕ → ℕ
max_ℕ a b = if ltb a b then b else a

module _ (J : JsonLib) (D : DoubleLib) where
  abbrev pub score : Text → Text → D.Double
  score typed word =
      let lower = map to_lower word in
      D.minus (D.literal (lit "1.0")) (
        D.over (D.of_nat (levenshtein_distance typed lower))
          (D.of_nat (max_ℕ (length lower) (length typed))))

  abbrev pub best_score : Text → D.Double → List Text → D.Double
  best_score typed best [] = best
  best_score typed best (w ∷ ws) =
      let s = score typed w in best_score typed (if D.gt s best then s else best) ws

  -- The commands with a score of at least a half, with the best score so far.
  abbrev pub candidates :
      Hooks J → Message J → Text → List Command → D.Double → List (Text × D.Double) × D.Double
  candidates hooks msg typed [] max_score = ([], max_score)
  candidates hooks msg typed (c ∷ cs) max_score =
      let disabled : Bool = elim hooks.command_disabled_checker [
        | some f ↦ f msg c
        | none ↦ false
      ] in
      let best = best_score typed (D.literal (lit "-1.0")) (c.name ∷ c.aliases) in
      let close = D.ge best (D.literal (lit "0.5")) in
      let skipped = candidates hooks msg typed cs max_score in
      let kept = candidates hooks msg typed cs (if D.gt best max_score then best else max_score) in
      if disabled then skipped else if close then ((c.name, best) ∷ kept.0, kept.1) else skipped

  abbrev pub near_best : D.Double → List (Text × D.Double) → List Text
  near_best max_score [] = []
  near_best max_score ((name, s) ∷ rest) =
      let others = near_best max_score rest in
      if D.ge s (D.minus max_score (D.literal (lit "0.001"))) then name ∷ others else others

  -- The text to send, if there is one.
  unfoldable pub suggest : Hooks J → Message J → Text → List Command → Option Text
  suggest hooks msg cmd commands =
      if ltb 2 (length cmd)
      then (let found = candidates hooks msg (map to_lower cmd) commands (D.literal (lit "-1.0")) in
          if D.ge found.1 (D.literal (lit "0.5"))
          then (let suggestions = near_best found.1 found.0 in
              if is_nil suggestions then none else some (suggestion_text (sort_texts suggestions)))
          else none)
      else none
