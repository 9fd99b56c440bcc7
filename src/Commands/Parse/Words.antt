-- ===== src/Commands/Parse/Words.antt =====
-- What the word loop reads: words without spaces, and all of a line of words joined by spaces.
use mathlib.Core.List.{append_assoc, append-nil}
use stoatpp.Prelude.{
  ℕ, ◌≡◌, refl, sym, ap, ◌∙◌, false, List, [], ◌∷◌, ◌++◌, Bool-cases, inl, inr, is_nil, Every,
}
use stoatpp.Text.{Text}
use stoatpp.Commands.Parse.{is_space, words_from, words}

-- Not empty, and free of space bytes.
abbrev pub IsWord : Text → Type 0
IsWord w = (is_nil w ≡ false) × Every (λ c. is_space c ≡ false) w

abbrev Spaceless : Text → Type 0
Spaceless w = Every (λ c. is_space c ≡ false) w

Spaceless-concat : (w : Text) (c : ℕ) → Spaceless w → is_space c ≡ false → Spaceless (w ++ c ∷ [])
Spaceless-concat [] c h e = (e, tt)
Spaceless-concat (x ∷ w) c h e = (h.0, Spaceless-concat w c h.1 e)

IsWord-words_from : (w s : Text) → Spaceless w → Every IsWord (words_from w s)
unfolding words_from
IsWord-words_from [] [] h = tt
IsWord-words_from (x ∷ w) [] h = ((refl, h), tt)
IsWord-words_from [] (c ∷ s) h = elim (Bool-cases (is_space c)) [
  | inl space ↦ rw space (IsWord-words_from [] s tt)
  | inr other ↦ rw other (IsWord-words_from (c ∷ []) s (other, tt))
]
IsWord-words_from (x ∷ w) (c ∷ s) h = elim (Bool-cases (is_space c)) [
  | inl space ↦ rw space ((refl, h), IsWord-words_from [] s tt)
  | inr other ↦
      rw other (IsWord-words_from (x ∷ w ++ c ∷ []) s (Spaceless-concat (x ∷ w) c h other))
]

-- The words with one space between two.
unfoldable pub join_words : List Text → Text
join_words [] = []
join_words (w ∷ []) = w
join_words (w ∷ v ∷ ws) = w ++ b' ' ∷ join_words (v ∷ ws)

words_from-append : (u w s : Text) → Spaceless w → words_from u (w ++ s) ≡ words_from (u ++ w) s
unfolding words_from
words_from-append u [] s h = rw (append-nil u)
words_from-append u (c ∷ w) s h =
    rw h.0 (
      words_from-append (u ++ c ∷ []) w s h.1
      ∙ ap (λ l. words_from l s) (append_assoc u (c ∷ []) w))

words_from-word : (w : Text) → IsWord w → words_from [] w ≡ w ∷ []
unfolding words_from
words_from-word w h =
    ap (words_from []) (sym (append-nil w)) ∙ words_from-append [] w [] h.1 ∙ rw h.0 refl

words_from-space : (w s : Text) → IsWord w → words_from [] (w ++ b' ' ∷ s) ≡ w ∷ words_from [] s
unfolding words_from
words_from-space w s h = words_from-append [] w (b' ' ∷ s) h.1 ∙ rw h.0 refl

-- Words joined by single spaces are read back as they were, if none is empty or has a space byte in it.
pub words-join_words : (ws : List Text) → Every IsWord ws → words (join_words ws) ≡ ws
unfolding words join_words
words-join_words [] h = refl
words-join_words (w ∷ []) h = words_from-word w h.0
words-join_words (w ∷ v ∷ ws) h =
    words_from-space w (join_words (v ∷ ws)) h.0 ∙ ap (λ l. w ∷ l) (words-join_words (v ∷ ws) h.1)

-- Every word that is read from a message is not empty and has no space byte in it.
pub words-IsWord : (s : Text) → Every IsWord (words s)
unfolding words
words-IsWord s = IsWord-words_from [] s tt

-- Words joined by single spaces are read back as they were, if none is empty or has a space byte in it; and every
-- word that is read from a message is not empty and has no space byte in it.
pub words_correct :
    (ws : List Text) (s : Text)
    → Every IsWord ws
    → (words (join_words ws) ≡ ws) × Every IsWord (words s)
words_correct ws s h = (words-join_words ws h, words-IsWord s)
