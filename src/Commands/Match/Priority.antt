-- ===== src/Commands/Match/Priority.antt =====
-- Names come before aliases, and earlier registrations before later ones.
use stoatpp.Prelude.{
  ◌≡◌, refl, sym, ap, subst, ◌⊎◌, inl, inr, Bool, true, false, Option, none, some, List, [], ◌∷◌,
  ◌++◌, arith, Bool-cases, Option-cases, Has, Every,
}
use mathlib.Core.Option.{some-injective}
use stoatpp.Text.{Text, text_eq, text_eq_iff}
use stoatpp.Commands.State.{Command}
use stoatpp.Commands.Match.{folded, find_by_name, has_alias, find_by_alias, find_command}

-- A command's name, or one of its aliases, is the typed word.
abbrev pub IsNamed : Bool → Text → Command → Type 0
IsNamed i cmd c = folded i c.name ≡ folded i cmd

abbrev pub IsAliased : Bool → Text → Command → Type 0
IsAliased i cmd c = (a : Text) × Has a c.aliases × (folded i a ≡ folded i cmd)

-- `c` is the first command of the list that has the property.
abbrev pub First : (Command → Type 0) → Command → List Command → Type 0
First P c cs =
    (before : List Command) × (after : List Command) × (cs ≡ before ++ c ∷ after)
    × P c
    × Every (λ d. ¬ P d) before

First-cons :
    (P : Command → Type 0) (d c : Command) (cs : List Command)
    → ¬ P d
    → First P c cs
    → First P c (d ∷ cs)
First-cons P d c cs miss (before, after, e, p, others) =
    (d ∷ before, after, ap (λ l. d ∷ l) e, p, (miss, others))

has_alias-Has :
    (i : Bool) (cmd : Text) (aliases : List Text)
    → has_alias i (folded i cmd) aliases ≡ true
    → (a : Text) × Has a aliases × (folded i a ≡ folded i cmd)
has_alias-Has i cmd [] h = cc
has_alias-Has i cmd (a ∷ aliases) h = elim (Bool-cases (text_eq (folded i a) (folded i cmd))) [
  | inl e ↦ (a, inl refl, (text_eq_iff _ _).0 e)
  | inr e ↦ later (has_alias-Has i cmd aliases (rw e at h))
]
  where
    later :
        (b : Text) × Has b aliases × (folded i b ≡ folded i cmd)
        → (b : Text) × Has b (a ∷ aliases) × (folded i b ≡ folded i cmd)
    later (b, place, e) = (b, inr place, e)

Has-has_alias :
    (i : Bool) (cmd a : Text) (aliases : List Text)
    → Has a aliases
    → folded i a ≡ folded i cmd
    → has_alias i (folded i cmd) aliases ≡ true
Has-has_alias i cmd a [] h e = absurd h
Has-has_alias i cmd a (b ∷ aliases) (inl same) e = rw (
    (text_eq_iff (folded i b) (folded i cmd)).1
      (subst (λ t. folded i t ≡ folded i cmd) (sym same) e))
Has-has_alias i cmd a (b ∷ aliases) (inr h) e = ground (arith, Has-has_alias i cmd a aliases h e)

find_by_name-some :
    (i : Bool) (cmd : Text) (c : Command) (cs : List Command)
    → find_by_name i (folded i cmd) cs ≡ some c
    → First (IsNamed i cmd) c cs
unfolding find_by_name
find_by_name-some i cmd c [] h = cc
find_by_name-some i cmd c (d ∷ cs) h =
    elim (Bool-cases (text_eq (folded i d.name) (folded i cmd))) [
      | inl e ↦ hit (some-injective d c (rw e at h)) ((text_eq_iff _ _).0 e)
      | inr e ↦
          First-cons (IsNamed i cmd) d c cs (λ p. cc (e, (text_eq_iff _ _).1 p))
            (find_by_name-some i cmd c cs (rw e at h))
    ]
  where
    hit : d ≡ c → IsNamed i cmd d → First (IsNamed i cmd) c (d ∷ cs)
    hit e p = subst (λ x. First (IsNamed i cmd) x (d ∷ cs)) e ([], cs, refl, p, tt)

find_by_name-none :
    (i : Bool) (cmd : Text) (cs : List Command)
    → find_by_name i (folded i cmd) cs ≡ none
    → Every (λ c. ¬ IsNamed i cmd c) cs
unfolding find_by_name
find_by_name-none i cmd [] h = tt
find_by_name-none i cmd (d ∷ cs) h = elim (Bool-cases (text_eq (folded i d.name) (folded i cmd))) [
  | inl e ↦ cc (rw e at h)
  | inr e ↦ (λ p. cc (e, (text_eq_iff _ _).1 p), find_by_name-none i cmd cs (rw e at h))
]

find_by_alias-some :
    (i : Bool) (cmd : Text) (c : Command) (cs : List Command)
    → find_by_alias i (folded i cmd) cs ≡ some c
    → First (IsAliased i cmd) c cs
unfolding find_by_alias
find_by_alias-some i cmd c [] h = cc
find_by_alias-some i cmd c (d ∷ cs) h = elim (Bool-cases (has_alias i (folded i cmd) d.aliases)) [
  | inl e ↦ hit (some-injective d c (rw e at h)) (has_alias-Has i cmd d.aliases e)
  | inr e ↦ First-cons (IsAliased i cmd) d c cs (miss e) (find_by_alias-some i cmd c cs (rw e at h))
]
  where
    hit : d ≡ c → IsAliased i cmd d → First (IsAliased i cmd) c (d ∷ cs)
    hit e p = subst (λ x. First (IsAliased i cmd) x (d ∷ cs)) e ([], cs, refl, p, tt)

    miss : has_alias i (folded i cmd) d.aliases ≡ false → ¬ IsAliased i cmd d
    miss e (a, place, same) = cc (e, Has-has_alias i cmd a d.aliases place same)

find_by_alias-none :
    (i : Bool) (cmd : Text) (cs : List Command)
    → find_by_alias i (folded i cmd) cs ≡ none
    → Every (λ c. ¬ IsAliased i cmd c) cs
unfolding find_by_alias
find_by_alias-none i cmd [] h = tt
find_by_alias-none i cmd (d ∷ cs) h = elim (Bool-cases (has_alias i (folded i cmd) d.aliases)) [
  | inl e ↦ cc (rw e at h)
  | inr e ↦ (miss e, find_by_alias-none i cmd cs (rw e at h))
]
  where
    miss : has_alias i (folded i cmd) d.aliases ≡ false → ¬ IsAliased i cmd d
    miss e (a, place, same) = cc (e, Has-has_alias i cmd a d.aliases place same)

-- What `find_command` promises: the first command of that name; if there is no such command, the first
-- with that alias; and nothing only if no command has the name or the alias.
abbrev pub Finds : Bool → Text → List Command → Option Command → Type 0
Finds i cmd cs (some c) =
    First (IsNamed i cmd) c cs ⊎ (Every (λ d. ¬ IsNamed i cmd d) cs × First (IsAliased i cmd) c cs)
Finds i cmd cs none = Every (λ d. ¬ IsNamed i cmd d) cs × Every (λ d. ¬ IsAliased i cmd d) cs

-- A typed word finds the first registered command of that name; if no command has the name, the first
-- that has it as an alias; and it finds nothing only if no command has it as a name or an alias. Names,
-- aliases and the word are compared in lower case if matching ignores case.
pub find_command-Finds :
    (i : Bool) (cmd : Text) (cs : List Command) → Finds i cmd cs (find_command i cmd cs)
unfolding find_command
find_command-Finds i cmd cs = elim (Option-cases (find_by_name i (folded i cmd) cs)) [
  | inr (c, e) ↦ rw (e, find_command) (inl (find_by_name-some i cmd c cs e))
  | inl e ↦
      rw (e, find_command)
        (by_alias (find_by_alias i (folded i cmd) cs) refl (find_by_name-none i cmd cs e))
]
  where
    by_alias :
        (o : Option Command)
        → find_by_alias i (folded i cmd) cs ≡ o
        → Every (λ d. ¬ IsNamed i cmd d) cs
        → Finds i cmd cs o
    by_alias (some c) e unnamed = inr (unnamed, find_by_alias-some i cmd c cs e)
    by_alias none e unnamed = (unnamed, find_by_alias-none i cmd cs e)
