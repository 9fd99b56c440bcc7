-- ===== src/Commands/Cooldown/Spacing.antt =====
-- What the cooldown test of src/cluster/commands.cpp guarantees over a sequence of attempts.
use stoatpp.Prelude.{
  inl, inr, Bool-cases, Option-cases, Every, Every-weaken, ◌⊎◌, ℕ, ◌+◌, ◌*◌, ◌≤◌, ◌<◌, ◌≡◌, ◌-◌,
  ◌/◌, refl, true, Option, none, some, List, [], ◌∷◌, arith, ltb, ◌&&◌, if◌then◌else◌,
}
use stoatpp.Prelude.Int.{pos_part}
use stoatpp.Text.{Text, text_eq, text_eq_iff, text_eq_refl}
use stoatpp.Dict.{Dict, lookup, insert, lookup-insert}
use stoatpp.Commands.State.{Command}
use stoatpp.Commands.Cooldown.{runs_of, remaining_cooldown, record_run, check_cooldown}

-- A user asks for a command at a time.
pub record Attempt : Type 0 where
  pub command : Command
  pub user : Text
  pub time : ℕ

abbrev pub seconds : Attempt → ℕ
seconds a = pos_part a.command.cooldown_seconds

-- The attempts that the cooldown admits, one after the other.
unfoldable pub admitted : Dict (Dict ℕ) → List Attempt → List Attempt
admitted table [] = []
admitted table (a ∷ later) =
    let step = check_cooldown table a.command a.user a.time in
    let rest = admitted step.0 later in elim step.1 [ some r ↦ rest | none ↦ a ∷ rest ]

-- The clock does not go back.
abbrev pub Ordered : ℕ → List Attempt → Type 0
Ordered now [] = Unit
Ordered now (a ∷ later) = (now ≤ a.time) × Ordered a.time later

-- `b` stands its cooldown after the time `t` at which the same user ran the same command.
abbrev pub After : Text → Text → ℕ → Attempt → Type 0
After name user t b =
    text_eq b.command.name name ≡ true
    → text_eq b.user user ≡ true
    → 0 < seconds b
    → t + 1000 * seconds b ≤ b.time

-- Each attempt against all later ones.
abbrev pub Spaced : List Attempt → Type 0
Spaced [] = Unit
Spaced (a ∷ later) =
    (0 < seconds a → Every (After a.command.name a.user a.time) later) × Spaced later

ran_at : Dict (Dict ℕ) → Text → Text → Option ℕ
ran_at table name user = lookup user (runs_of table name)

-- A run is found under its command and user, and no other run is touched.
ran_at-record_run :
    (table : Dict (Dict ℕ)) (cmd : Command) (u : Text) (now : ℕ) (name user : Text)
    → ran_at (record_run table cmd u now) name user
      ≡ (if text_eq cmd.name name && text_eq u user then some now else ran_at table name user)
unfolding ran_at record_run
ran_at-record_run table cmd u now name user = elim (Bool-cases (text_eq cmd.name name)) [
  | inl e ↦ rw (
    lookup-insert cmd.name name (insert u now (runs_of table cmd.name)) table,
    e,
    lookup-insert u user now (runs_of table cmd.name),
    (text_eq_iff cmd.name name).0 e,
  )
  | inr e ↦ rw (lookup-insert cmd.name name (insert u now (runs_of table cmd.name)) table, e)
]

-- An attempt with a cooldown that is admitted is recorded, after the last run has cooled down.
check_cooldown-admits :
    (table : Dict (Dict ℕ)) (cmd : Command) (user : Text) (now : ℕ)
    → 0 < pos_part cmd.cooldown_seconds
    → (check_cooldown table cmd user now).1 ≡ none
    → ((check_cooldown table cmd user now).0 ≡ record_run table cmd user now)
      × ((t : ℕ)
          → ran_at table cmd.name user ≡ some t
          → (now - t) / 1000 < pos_part cmd.cooldown_seconds
          → ⊥)
unfolding check_cooldown remaining_cooldown ran_at
check_cooldown-admits table cmd user now cools admits = ground arith

-- The table is kept, or the run is recorded in it.
check_cooldown-cases :
    (table : Dict (Dict ℕ)) (cmd : Command) (user : Text) (now : ℕ)
    → ((check_cooldown table cmd user now).0 ≡ table)
      ⊎ ((check_cooldown table cmd user now).0 ≡ record_run table cmd user now)
unfolding check_cooldown
check_cooldown-cases table cmd user now =
    elim (Bool-cases (ltb 0 (pos_part cmd.cooldown_seconds))) [
      | inr free ↦ inl (rw free refl)
      | inl cools ↦ elim (Option-cases (remaining_cooldown table cmd user now)) [
        | inr (r, e) ↦ inl (rw (cools, e) refl)
        | inl e ↦ inr (rw (cools, e) refl)
      ]
    ]

module _ (table : Dict (Dict ℕ)) (a : Attempt) where
  abbrev step : Dict (Dict ℕ) × Option ℕ
  step = check_cooldown table a.command a.user a.time

  admitted_admits :
      (later : List Attempt)
      → step.1 ≡ none
      → admitted table (a ∷ later) ≡ a ∷ admitted step.0 later
  unfolding admitted
  admitted_admits later e = rw (admitted, e) refl

  admitted_refuses :
      (later : List Attempt) (r : ℕ)
      → step.1 ≡ some r
      → admitted table (a ∷ later) ≡ admitted step.0 later
  unfolding admitted
  admitted_refuses later r e = rw (admitted, e) refl

  -- A run that the table holds stays there, or a later one replaces it after the cooldown.
  step-ran_at :
      (name user : Text) (t : ℕ)
      → ran_at table name user ≡ some t
      → t ≤ a.time
      → (s : ℕ) × ((ran_at step.0 name user ≡ some s) × (t ≤ s) × (s ≤ a.time))
  step-ran_at name user t ran le = elim (check_cooldown-cases table a.command a.user a.time) [
    | inl kept ↦ (t, (rw kept ran, omega arith, le))
    | inr recorded ↦
        let found = ran_at-record_run table a.command a.user a.time name user in
        elim (Bool-cases (text_eq a.command.name name && text_eq a.user user)) [
          | inl e ↦ (a.time, (rw (recorded, found, e) refl, le, omega arith))
          | inr e ↦ (t, (rw (recorded, found, e) ran, omega arith, le))
        ]
  ]

  step-After :
      (name user : Text) (t : ℕ)
      → ran_at table name user ≡ some t
      → step.1 ≡ none
      → After name user t a
  step-After name user t ran admits same_name same_user cools =
      let cmd_eq = (text_eq_iff a.command.name name).0 same_name in
      let user_eq = (text_eq_iff a.user user).0 same_user in
      let ran_a : ran_at table a.command.name a.user ≡ some t = rw (cmd_eq, user_eq) ran in
      let cooled = (check_cooldown-admits table a.command a.user a.time cools admits).1 t ran_a in
      omega (arith, cooled)

ran_at_self :
    (table : Dict (Dict ℕ)) (a : Attempt)
    → 0 < seconds a
    → (step table a).1 ≡ none
    → ran_at (step table a).0 a.command.name a.user ≡ some a.time
ran_at_self table a cools e =
    let recorded = (check_cooldown-admits table a.command a.user a.time cools e).0 in
    rw
      (
        recorded,
        ran_at-record_run table a.command a.user a.time a.command.name a.user,
        text_eq_refl a.command.name,
        text_eq_refl a.user,
      )
      refl

-- A later run of the same command by the same user waits for the cooldown.
admitted-After :
    (table : Dict (Dict ℕ)) (name user : Text) (t now : ℕ) (attempts : List Attempt)
    → ran_at table name user ≡ some t
    → t ≤ now
    → Ordered now attempts
    → Every (After name user t) (admitted table attempts)
unfolding admitted
admitted-After table name user t now [] ran le ordered = tt
admitted-After table name user t now (a ∷ later) ran le ordered =
    let before : t ≤ a.time = omega (arith, le, ordered.0) in
    let (s, (held, since, past)) = step-ran_at table a name user t ran before in
    let rest = admitted-After (step table a).0 name user s a.time later held past ordered.1 in
    let weaker =
      Every-weaken (After name user s) (After name user t)
        (λ b after same_name same_user cools. omega (arith, since, after same_name same_user cools))
        (admitted (step table a).0 later) rest in
    elim (Option-cases (step table a).1) [
      | inr (r, e) ↦ rw (admitted_refuses table a later r e) weaker
      | inl e ↦ rw (admitted_admits table a later e) (step-After table a name user t ran e, weaker)
    ]

-- If the clock does not go back, then of the attempts that the cooldown admits, with attempts of any other
-- commands and users between them, two by one user at one command with a cooldown are at least the later
-- one's cooldown apart.
pub admitted-Spaced :
    (table : Dict (Dict ℕ)) (now : ℕ) (attempts : List Attempt)
    → Ordered now attempts
    → Spaced (admitted table attempts)
unfolding admitted
admitted-Spaced table now [] ordered = tt
admitted-Spaced table now (a ∷ later) ordered =
    let rest = admitted-Spaced (step table a).0 a.time later ordered.1 in
    elim (Option-cases (step table a).1) [
      | inr (r, e) ↦ rw (admitted_refuses table a later r e) rest
      | inl e ↦ rw (admitted_admits table a later e) (
        (λ cools.
            admitted-After (step table a).0 a.command.name a.user a.time a.time later
              (ran_at_self table a cools e) (omega arith) ordered.1),
        rest,
      )
    ]
