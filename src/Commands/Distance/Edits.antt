-- ===== src/Commands/Distance/Edits.antt =====
-- The table computes the edit distance: the least number of byte insertions, deletions and changes.
use mathlib.Core.List.{append-nil}
use stoatpp.Prelude.{
  ℕ, zero, suc, ◌+◌, ◌≤◌, ◌≡◌, refl, sym, ap, ◌∙◌, subst, ◌⊎◌, inl, inr, List, [], ◌∷◌, ◌++◌, arith,
  length,
}
use native.Mathlib.Decide.{ℕ_discrete}
use stoatpp.Text.{Text}
use stoatpp.Commands.Distance.{
  cost, min₃, first_row, cells, last_row, last_cell, levenshtein_distance,
}

-- `Edit s t n`: `n` insertions, deletions and changes of single bytes turn `s` into `t`.
pub data Edit : Text → Text → ℕ → Type 0 where
  done : Edit [] [] zero
  keep : {s t : Text} {n : ℕ} (x : ℕ) → Edit s t n → Edit (x ∷ s) (x ∷ t) n
  change : {s t : Text} {n : ℕ} (x y : ℕ) → Edit s t n → Edit (x ∷ s) (y ∷ t) (suc n)
  remove : {s t : Text} {n : ℕ} (x : ℕ) → Edit s t n → Edit (x ∷ s) t (suc n)
  add : {s t : Text} {n : ℕ} (y : ℕ) → Edit s t n → Edit s (y ∷ t) (suc n)

-- The recursion that the table tabulates, from the ends of the strings.
distance : Text → Text → ℕ
distance [] t = length t
distance (x ∷ s) [] = suc (length s)
distance (x ∷ s) (y ∷ t) =
    min₃ (distance s (y ∷ t) + 1) (distance (x ∷ s) t + 1) (distance s t + cost x y)

-- A row of the table without its first cell: the distances from `rs` to the prefixes of `ys`, which
-- continue `rt` (both stand reversed).
row_tail : Text → Text → Text → List ℕ
row_tail rs rt [] = []
row_tail rs rt (y ∷ ys) = distance rs (y ∷ rt) ∷ row_tail rs (y ∷ rt) ys

first_row-row_tail :
    (rt ys : Text) (j : ℕ) → j ≡ length rt → first_row j ys ≡ distance [] rt ∷ row_tail [] rt ys
unfolding first_row row_tail distance
first_row-row_tail rt [] j e = rw e
first_row-row_tail rt (y ∷ ys) j e =
    rw (first_row-row_tail (y ∷ rt) ys (j + 1) (omega arith)) (rw e)

cells-row_tail :
    (x : ℕ) (rs rt ys : Text)
    → cells x ys (distance rs rt ∷ row_tail rs rt ys) (distance (x ∷ rs) rt)
      ≡ row_tail (x ∷ rs) rt ys
unfolding cells row_tail distance
cells-row_tail x rs rt [] = refl
cells-row_tail x rs rt (y ∷ ys) =
    ap (λ l. distance (x ∷ rs) (y ∷ rt) ∷ l) (cells-row_tail x rs (y ∷ rt) ys)

distance-nil : (s : Text) → distance s [] ≡ length s
unfolding distance
distance-nil [] = refl
distance-nil (x ∷ s) = refl

-- The bytes of the first text, last first, in front of the second.
onto : Text → Text → Text
onto [] rs = rs
onto (x ∷ xs) rs = onto xs (x ∷ rs)

next_row :
    (x : ℕ) (rs ys : Text) (i : ℕ)
    → i ≡ suc (length rs)
    → i ∷ cells x ys (distance rs [] ∷ row_tail rs [] ys) i
      ≡ distance (x ∷ rs) [] ∷ row_tail (x ∷ rs) [] ys
next_row x rs ys i e =
    let first : i ≡ distance (x ∷ rs) [] = e ∙ sym (distance-nil (x ∷ rs)) in
    rw first (ap (λ l. distance (x ∷ rs) [] ∷ l) (cells-row_tail x rs [] ys))

last_row-row_tail :
    (xs rs ys : Text) (i : ℕ)
    → i ≡ suc (length rs)
    → last_row xs i ys (distance rs [] ∷ row_tail rs [] ys)
      ≡ distance (onto xs rs) [] ∷ row_tail (onto xs rs) [] ys
unfolding last_row onto
last_row-row_tail [] rs ys i e = refl
last_row-row_tail (x ∷ xs) rs ys i e =
    rw (next_row x rs ys i e) (last_row-row_tail xs (x ∷ rs) ys (i + 1) (omega arith))

last_cell-row_tail :
    (rs rt ys : Text) → last_cell (distance rs rt ∷ row_tail rs rt ys) ≡ distance rs (onto ys rt)
unfolding last_cell row_tail onto
last_cell-row_tail rs rt [] = refl
last_cell-row_tail rs rt (y ∷ ys) = last_cell-row_tail rs (y ∷ rt) ys

levenshtein_distance-distance :
    (s t : Text) → levenshtein_distance s t ≡ distance (onto s []) (onto t [])
unfolding levenshtein_distance
levenshtein_distance-distance s t =
    rw (first_row-row_tail [] t 0 refl, last_row-row_tail s [] t 1 refl)
      (last_cell-row_tail (onto s []) [] t)

-- The recursion gives the least cost of an edit.

distance-cons-le : (x : ℕ) (s t : Text) → distance (x ∷ s) t ≤ distance s t + 1
unfolding distance
distance-cons-le x s [] = omega (arith, distance-nil s)
distance-cons-le x s (y ∷ t) = omega arith

distance-cons_right-le : (y : ℕ) (s t : Text) → distance s (y ∷ t) ≤ distance s t + 1
unfolding distance
distance-cons_right-le y [] t = omega arith
distance-cons_right-le y (x ∷ s) t = omega arith

distance-le : {s t : Text} {n : ℕ} → Edit s t n → distance s t ≤ n
unfolding distance
distance-le done = omega arith
distance-le (keep {s} {t} x e) = ground (arith, distance-le e)
distance-le (change {s} {t} x y e) = ground (arith, distance-le e)
distance-le (remove {s} {t} x e) = omega (arith, distance-le e, distance-cons-le x s t)
distance-le (add {s} {t} y e) = omega (arith, distance-le e, distance-cons_right-le y s t)

Edit-add_all : (t : Text) → Edit [] t (length t)
Edit-add_all [] = done
Edit-add_all (y ∷ t) = add y (Edit-add_all t)

Edit-remove_all : (s : Text) → Edit s [] (length s)
Edit-remove_all [] = done
Edit-remove_all (x ∷ s) = remove x (Edit-remove_all s)

at_cost : {s t : Text} {m n : ℕ} → m ≡ n → Edit s t m → Edit s t n
at_cost {s} {t} e d = subst (Edit s t) e d

min₃_cases : (a b c : ℕ) → (min₃ a b c ≡ a) ⊎ (min₃ a b c ≡ b) ⊎ (min₃ a b c ≡ c)
min₃_cases a b c = ground arith

Edit-match : {s t : Text} {n : ℕ} (x y : ℕ) → Edit s t n → Edit (x ∷ s) (y ∷ t) (n + cost x y)
Edit-match {s} {t} {n} x y d = elim (ℕ_discrete x y) [
  | yes e ↦ at_cost (ground arith) (subst (λ z. Edit (x ∷ s) (z ∷ t) n) e (keep x d))
  | no ne ↦ at_cost (ground arith) (change x y d)
]

Edit-distance : (s t : Text) → Edit s t (distance s t)
unfolding distance
Edit-distance [] t = Edit-add_all t
Edit-distance (x ∷ s) [] = Edit-remove_all (x ∷ s)
Edit-distance (x ∷ s) (y ∷ t) =
    pick (Edit-distance s (y ∷ t)) (Edit-distance (x ∷ s) t) (Edit-distance s t)
  where
    pick :
        Edit s (y ∷ t) (distance s (y ∷ t))
        → Edit (x ∷ s) t (distance (x ∷ s) t)
        → Edit s t (distance s t)
        → Edit (x ∷ s) (y ∷ t) (distance (x ∷ s) (y ∷ t))
    pick a b c =
        elim (min₃_cases (distance s (y ∷ t) + 1) (distance (x ∷ s) t + 1)
          (distance s t + cost x y)) [
            | inl e ↦ at_cost (omega (arith, e)) (remove x a)
            | inr (inl e) ↦ at_cost (omega (arith, e)) (add y b)
            | inr (inr e) ↦ at_cost (sym e) (Edit-match x y c)
          ]

Edit-onto :
    {s t u v : Text} {m n : ℕ} → Edit s t m → Edit u v n → Edit (onto s u) (onto t v) (m + n)
unfolding onto
Edit-onto done e = at_cost (omega arith) e
Edit-onto (keep x d) e = Edit-onto d (keep x e)
Edit-onto (change x y d) e = at_cost (omega arith) (Edit-onto d (change x y e))
Edit-onto (remove x d) e = at_cost (omega arith) (Edit-onto d (remove x e))
Edit-onto (add y d) e = at_cost (omega arith) (Edit-onto d (add y e))

onto-onto : (s r q : Text) → onto (onto s r) q ≡ onto r (s ++ q)
unfolding onto
onto-onto [] r q = refl
onto-onto (x ∷ s) r q = onto-onto s (x ∷ r) q

onto_twice : (s : Text) → onto (onto s []) [] ≡ s
onto_twice s = onto-onto s [] [] ∙ unfold onto in append-nil s

Edit-onto_nil : {s t : Text} {n : ℕ} → Edit s t n → Edit (onto s []) (onto t []) n
Edit-onto_nil d = at_cost (omega arith) (Edit-onto d done)

-- `levenshtein_distance` is the edit distance: that many insertions, deletions and changes of bytes turn
-- the one text into the other, and no fewer do.
pub levenshtein_distance_optimal :
    (s t : Text)
    → Edit s t (levenshtein_distance s t) × ((n : ℕ) → Edit s t n → levenshtein_distance s t ≤ n)
levenshtein_distance_optimal s t = (
  at_cost (sym (levenshtein_distance-distance s t)) (
      subst (λ u. Edit u t (distance (onto s []) (onto t []))) (onto_twice s)
        (subst (λ v. Edit (onto (onto s []) []) v (distance (onto s []) (onto t []))) (onto_twice t)
          (Edit-onto_nil (Edit-distance (onto s []) (onto t []))))),
  λ n d. rw (levenshtein_distance-distance s t) (distance-le (Edit-onto_nil d)),
)
