-- ===== src/Commands/Parse/Prefix.antt =====
-- The prefix that `dispatch_command` strips.
use stoatpp.Prelude.{
  ◌≤◌, ◌≡◌, sym, ap, ◌↔◌, subst, inl, inr, true, false, Option, none, some, List, [], ◌∷◌, arith,
  ltb, ◌&&◌, Option-cases, not, Bool-cases, if◌then◌else◌, length, is_nil, Has,
}
use stoatpp.Text.{Text, starts_with}
use stoatpp.Commands.Parse.{longer_first, sort_prefixes, first_match, matched_prefix}

-- A prefix that the code may strip.
abbrev pub Fits : Text → Text → Type 0
Fits content p = (is_nil p ≡ false) × (starts_with content p ≡ true)

Has-longer_first : (p x : Text) (ps : List Text) → Has x (longer_first p ps) → Has x (p ∷ ps)
Has-longer_first p x [] h = h
Has-longer_first p x (q ∷ qs) h = ground (arith, Has-longer_first p x qs)

longer_first-Has : (p x : Text) (ps : List Text) → Has x (p ∷ ps) → Has x (longer_first p ps)
longer_first-Has p x [] h = h
longer_first-Has p x (q ∷ qs) h = ground (arith, longer_first-Has p x qs)

sort-Has : (x : Text) (ps : List Text) → Has x ps → Has x (sort_prefixes ps)
unfolding sort_prefixes
sort-Has x [] h = h
sort-Has x (p ∷ ps) (inl e) = longer_first-Has p x (sort_prefixes ps) (inl e)
sort-Has x (p ∷ ps) (inr h) = longer_first-Has p x (sort_prefixes ps) (inr (sort-Has x ps h))

Has-sort : (x : Text) (ps : List Text) → Has x (sort_prefixes ps) → Has x ps
unfolding sort_prefixes
Has-sort x [] h = h
Has-sort x (p ∷ ps) h = elim (Has-longer_first p x (sort_prefixes ps) h) [
  | inl e ↦ inl e
  | inr k ↦ inr (Has-sort x ps k)
]

-- Longest first.
abbrev IsSorted : List Text → Type 0
IsSorted [] = Unit {0}
IsSorted (p ∷ ps) = ((q : Text) → Has q ps → length q ≤ length p) × IsSorted ps

longer_first-IsSorted : (p : Text) (ps : List Text) → IsSorted ps → IsSorted (longer_first p ps)
longer_first-IsSorted p [] h = (λ q k. absurd k, tt)
longer_first-IsSorted p (q ∷ qs) h = elim (Bool-cases (ltb (length p) (length q))) [
  | inl shorter ↦ rw shorter (
    λ r k. elim (Has-longer_first p r qs k) [
      | inl e ↦ subst (λ t. length t ≤ length q) e (ground arith)
      | inr old ↦ h.0 r old
    ],
    longer_first-IsSorted p qs h.1,
  )
  | inr longer ↦ rw longer (
    λ r k. elim k [
      | inl e ↦ subst (λ t. length t ≤ length p) e (ground arith)
      | inr old ↦ ground (arith, h.0 r old)
    ],
    h,
  )
]

sort-IsSorted : (ps : List Text) → IsSorted (sort_prefixes ps)
unfolding sort_prefixes
sort-IsSorted [] = tt
sort-IsSorted (p ∷ ps) = longer_first-IsSorted p (sort_prefixes ps) (sort-IsSorted ps)

Fits-iff : (content p : Text) → ((not (is_nil p) && starts_with content p) ≡ true) ↔ Fits content p
Fits-iff content p = (λ h. ground arith, λ h. ground arith)

first_match-some :
    (content p : Text) (ps : List Text)
    → IsSorted ps
    → first_match content ps ≡ some p
    → Has p ps × Fits content p × ((q : Text) → Has q ps → Fits content q → length q ≤ length p)
unfolding first_match
first_match-some content p [] s h = cc
first_match-some content p (x ∷ xs) s h =
    elim (Bool-cases (not (is_nil x) && starts_with content x)) [
      | inl hit ↦ take_head (ground arith) ((Fits-iff content x).0 hit)
      | inr miss ↦ take_tail miss (first_match-some content p xs s.1 (rw miss at h))
    ]
  where
    take_head :
        x ≡ p
        → Fits content x
        → Has p (x ∷ xs)
          × Fits content p
          × ((q : Text) → Has q (x ∷ xs) → Fits content q → length q ≤ length p)
    take_head e f = (
      inl e,
      subst (Fits content) e f,
      λ q k g.
          subst (λ t. length q ≤ length t) e
            (elim k [
              | inl same ↦ subst (λ t. length t ≤ length x) same (omega arith)
              | inr old ↦ s.0 q old
            ]),
    )

    take_tail :
        (not (is_nil x) && starts_with content x) ≡ false
        → Has p xs × Fits content p × ((q : Text) → Has q xs → Fits content q → length q ≤ length p)
        → Has p (x ∷ xs)
          × Fits content p
          × ((q : Text) → Has q (x ∷ xs) → Fits content q → length q ≤ length p)
    take_tail miss (held, f, best) = (
      inr held,
      f,
      λ q k g. elim k [
        | inl same ↦ cc (miss, (Fits-iff content x).1 (subst (Fits content) (sym same) g))
        | inr old ↦ best q old g
      ],
    )

first_match-none :
    (content q : Text) (ps : List Text)
    → first_match content ps ≡ none
    → Has q ps
    → ¬ Fits content q
unfolding first_match
first_match-none content q [] h k f = k
first_match-none content q (x ∷ xs) h (inl e) f = cc (
  h,
  ap (λ b. if b then some x else first_match content xs)
      ((Fits-iff content x).1 (subst (Fits content) (sym e) f)),
)
first_match-none content q (x ∷ xs) h (inr k) f = first_match-none content q xs (ground arith) k f

-- Whatever the order of the configured prefixes: the prefix that is stripped is one of them, is not
-- empty, starts the message, and is no shorter than any other that does.
pub matched_prefix_longest :
    (content : Text) (prefixes : List Text) (p : Text)
    → matched_prefix content prefixes ≡ some p
    → Has p prefixes
      × Fits content p
      × ((q : Text) → Has q prefixes → Fits content q → length q ≤ length p)
unfolding matched_prefix
matched_prefix_longest content prefixes p h =
    lower (first_match-some content p (sort_prefixes prefixes) (sort-IsSorted prefixes) h)
  where
    lower :
        Has p (sort_prefixes prefixes)
          × Fits content p
          × ((q : Text) → Has q (sort_prefixes prefixes) → Fits content q → length q ≤ length p)
        → Has p prefixes
          × Fits content p
          × ((q : Text) → Has q prefixes → Fits content q → length q ≤ length p)
    lower (held, f, best) = (Has-sort p prefixes held, f, λ q k g. best q (sort-Has q prefixes k) g)

-- A message is ignored for want of a prefix only if no configured prefix but the empty one starts it.
pub matched_prefix-none :
    (content : Text) (prefixes : List Text) (q : Text)
    → matched_prefix content prefixes ≡ none
    → Has q prefixes
    → ¬ Fits content q
unfolding matched_prefix
matched_prefix-none content prefixes q h k =
    first_match-none content q (sort_prefixes prefixes) h (sort-Has q prefixes k)

-- What the search for a prefix should come to: one of them that fits and is no shorter than any other that
-- does, or none where none fits.
abbrev pub IsLongest : Text → List Text → Option Text → Type 0
IsLongest content prefixes (some p) =
    Has p prefixes
    × Fits content p
    × ((q : Text) → Has q prefixes → Fits content q → length q ≤ length p)
IsLongest content prefixes none = (q : Text) → Has q prefixes → ¬ Fits content q

-- Whatever the order of the configured prefixes: the prefix that is stripped is one of them, is not
-- empty, starts the message, and is no shorter than any other that does; without one, no configured prefix but
-- the empty one starts the message.
pub matched_prefix-IsLongest :
    (content : Text) (prefixes : List Text)
    → IsLongest content prefixes (matched_prefix content prefixes)
matched_prefix-IsLongest content prefixes = elim (Option-cases (matched_prefix content prefixes)) [
  | inl e ↦
      subst (IsLongest content prefixes) (sym e)
        (λ q held. matched_prefix-none content prefixes q e held)
  | inr (p, e) ↦
      subst (IsLongest content prefixes) (sym e) (matched_prefix_longest content prefixes p e)
]
