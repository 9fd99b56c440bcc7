-- ===== src/Text/Split.antt =====
-- `std::string::find` and `rfind` of a character, as src/voice_connection.cpp and src/rest.cpp use them.
use stoatpp.Prelude.{
  ℕ, ◌≡◌, ◌≢◌, refl, true, false, Option, none, some, [], ◌∷◌, ◌++◌, if◌then◌else◌, ◌==◌, arith,
  Every,
}
use stoatpp.Text.{Text}

-- `s.find(c)`: the text before the first `c` and the text behind it.
abbrev in_front : ℕ → Option (Text × Text) → Option (Text × Text)
in_front x none = none
in_front x (some (s, t)) = some (x ∷ s, t)

unfoldable pub split_first : ℕ → Text → Option (Text × Text)
split_first c [] = none
split_first c (x ∷ s) =
    let rest = split_first c s in if x == c then some ([], s) else in_front x rest

-- `s.rfind(c)`: the text before the last `c` and the text behind it.
unfoldable pub split_last : ℕ → Text → Option (Text × Text)
split_last c [] = none
split_last c (x ∷ s) =
    let rest = split_last c s in
    elim rest as (λ o. Option (Text × Text)) [
      | some p ↦ in_front x (some p)
      | none ↦ if x == c then some ([], s) else none
    ]

pub split_first_at :
    (c : ℕ) (xs ys : Text) → Every (λ x. x ≢ c) xs → split_first c (xs ++ c ∷ ys) ≡ some (xs, ys)
unfolding split_first
split_first_at c [] ys all = let same : (c == c) ≡ true = ground arith in rw same refl
split_first_at c (x ∷ xs) ys all =
    let other : (x == c) ≡ false = ground (arith, all.0) in
    rw (other, split_first_at c xs ys all.1) refl

pub split_last-none : (c : ℕ) (xs : Text) → Every (λ x. x ≢ c) xs → split_last c xs ≡ none
unfolding split_last
split_last-none c [] all = refl
split_last-none c (x ∷ xs) all =
    let other : (x == c) ≡ false = ground (arith, all.0) in
    rw (split_last-none c xs all.1, other) refl

pub split_last_at :
    (c : ℕ) (xs ys : Text) → Every (λ y. y ≢ c) ys → split_last c (xs ++ c ∷ ys) ≡ some (xs, ys)
unfolding split_last
split_last_at c [] ys all =
    let same : (c == c) ≡ true = ground arith in rw (split_last-none c ys all, same) refl
split_last_at c (x ∷ xs) ys all = rw (split_last_at c xs ys all) refl
