-- ===== src/Gateway/Bulk.antt =====
-- `gateway::handle_event` of src/gateway.cpp handles a `Bulk` by calling itself on its events.
use stoatpp.Prelude.{
  ℕ, zero, suc, ◌<◌, ◌≡◌, refl, ap, sym, ◌∙◌, true, false, none, some, List, [], ◌∷◌, ◌++◌,
  if◌then◌else◌, arith, Every, Every-weaken, inl, inr, Bool-cases, Option-cases,
}
use stoatpp.Prelude.Int.{ℤ}
use stoatpp.Text.{Text, lit, text_eq}
use stoatpp.Json.{JsonLib}
use stoatpp.Gateway.Session.{Session, SessionOutcome, raw_event, done, finish, and_then, glue}
use stoatpp.Gateway.Handle.{handle_typed, type_of, parts, handle_all, handle_event}
use stoatpp.Gateway.Sequence.{and_then-finish, handle_all-append}

module _ (J : JsonLib) where
  -- The events of a list, each with the events inside it.
  unfoldable pub flat_all : (J.Json → List J.Json) → List J.Json → List J.Json
  flat_all f [] = []
  flat_all f (j ∷ js) = f j ++ flat_all f js

  -- An event, and behind it those that it bundles, and so on down to a depth.
  unfoldable pub flatten : ℕ → J.Json → List J.Json
  unfolding flat_all
  flatten zero j = []
  flatten (suc n) j = elim (type_of J j) [
    | none ↦ j ∷ []
    | some type ↦ j ∷ (if text_eq type (lit "Bulk") then flat_all (flatten n) (parts J j) else [])
  ]

  handle_all-flat_all :
      (h k : J.Json → Session J → SessionOutcome J) (f : J.Json → List J.Json) (js : List J.Json)
      → Every (λ j. (s : Session J) → h j s ≡ handle_all J k (f j) s) js
      → (s : Session J) → handle_all J h js s ≡ handle_all J k (flat_all f js) s
  unfolding handle_all flat_all and_then
  handle_all-flat_all h k f [] same s = refl
  handle_all-flat_all h k f (j ∷ js) same s =
      ap (λ o. and_then J o (handle_all J h js)) (same.0 s)
      ∙ ap
          (glue J (handle_all J k (f j) s).effects (handle_all J k (f j) s).ended
            (handle_all J k (f j) s).after)
          (handle_all-flat_all h k f js same.1 (handle_all J k (f j) s).after)
      ∙ sym (handle_all-append J k (f j) (flat_all f js) s)

  -- A measure that the events inside a `Bulk` lower, which the depth of a value does.
  abbrev pub Shrinks : (J.Json → ℕ) → Type 0
  Shrinks depth = (j : J.Json) → Every (λ e. depth e < depth j) (parts J j)

  module _ (clock : ℕ → ℤ) where
    -- What one event does by itself: its raw handlers run, and where it bundles no others its own branch.
    unfoldable pub handle_single : J.Json → Session J → SessionOutcome J
    unfolding and_then handle_typed
    handle_single j s = elim (type_of J j) [
      | none ↦ finish J s []
      | some type ↦
          and_then J (finish J s (raw_event type j ∷ [])) (
            if text_eq type (lit "Bulk") then (λ t. finish J t []) else handle_typed J clock type j)
    ]

    handle_single-none :
        (j : J.Json) (s : Session J) → type_of J j ≡ none → handle_single j s ≡ finish J s []
    unfolding handle_single
    handle_single-none j s e = rw (handle_single, e) refl

    handle_single-bulk :
        (type : Text) (j : J.Json) (s : Session J)
        → type_of J j ≡ some type
        → text_eq type (lit "Bulk") ≡ true
        → handle_single j s ≡ finish J s (raw_event type j ∷ [])
    unfolding handle_single and_then glue
    handle_single-bulk type j s e bulk = rw (handle_single, e, bulk) refl

    handle_single-other :
        (type : Text) (j : J.Json) (s : Session J)
        → type_of J j ≡ some type
        → text_eq type (lit "Bulk") ≡ false
        → handle_single j s
          ≡ and_then J (finish J s (raw_event type j ∷ [])) (handle_typed J clock type j)
    unfolding handle_single
    handle_single-other type j s e other = rw (handle_single, e, other) refl

    handle_all-one :
        (j : J.Json) (s : Session J) → handle_all J handle_single (j ∷ []) s ≡ handle_single j s
    unfolding handle_all
    handle_all-one j s = and_then-finish J (handle_single j s)

    handle_all-bulk :
        (type : Text) (j : J.Json) (js : List J.Json) (s : Session J)
        → type_of J j ≡ some type
        → text_eq type (lit "Bulk") ≡ true
        → handle_all J handle_single (j ∷ js) s
          ≡ glue J (raw_event type j ∷ []) done s (handle_all J handle_single js s)
    unfolding handle_all and_then
    handle_all-bulk type j js s e bulk =
        ap (λ o. and_then J o (handle_all J handle_single js)) (handle_single-bulk type j s e bulk)

    handle_event-bulk :
        (fuel : ℕ) (type : Text) (j : J.Json) (s : Session J)
        → type_of J j ≡ some type
        → text_eq type (lit "Bulk") ≡ true
        → handle_event J clock (suc fuel) j s
          ≡ glue J
              (raw_event type j ∷ [])
              done
              s
              (handle_all J (handle_event J clock fuel) (parts J j) s)
    unfolding handle_event and_then
    handle_event-bulk fuel type j s e bulk = rw (handle_event, e, bulk) refl

    flatten-bulk :
        (n : ℕ) (type : Text) (j : J.Json)
        → type_of J j ≡ some type
        → text_eq type (lit "Bulk") ≡ true
        → flatten (suc n) j ≡ j ∷ flat_all (flatten n) (parts J j)
    unfolding flatten
    flatten-bulk n type j e bulk = rw (flatten, e, bulk) refl

    -- Where the fuel exceeds the nesting of an event, handling it is handling, in order and until one
    -- throws, the event itself and every event that it bundles, each by itself.
    pub handle_event-flatten :
        (depth : J.Json → ℕ)
        → Shrinks depth
        → (fuel : ℕ) (j : J.Json) → depth j < fuel
        → (s : Session J)
        → handle_event J clock fuel j s ≡ handle_all J handle_single (flatten fuel j) s
    unfolding handle_event handle_all handle_single flatten and_then glue
    handle_event-flatten depth shrinks zero j below s = absurd (omega (arith, below))
    handle_event-flatten depth shrinks (suc fuel) j below s = elim (Option-cases (type_of J j)) [
      | inl e ↦ rw (handle_event, flatten, e) (sym (handle_all-one j s ∙ handle_single-none j s e))
      | inr (type, e) ↦ elim (Bool-cases (text_eq type (lit "Bulk"))) [
        | inl bulk ↦
            handle_event-bulk fuel type j s e bulk
            ∙ ap (glue J (raw_event type j ∷ []) done s) (
                handle_all-flat_all (handle_event J clock fuel) handle_single (flatten fuel)
                  (parts J j)
                  (Every-weaken (λ e. depth e < depth j)
                    (λ e.
                      (t : Session J)
                      → handle_event J clock fuel e t
                        ≡ handle_all J handle_single (flatten fuel e) t)
                    (λ e lower.
                      handle_event-flatten depth shrinks fuel e (omega (arith, below, lower)))
                    (parts J j) (shrinks j))
                  s)
            ∙ sym (handle_all-bulk type j (flat_all (flatten fuel) (parts J j)) s e bulk)
            ∙ ap (λ js. handle_all J handle_single js s) (sym (flatten-bulk fuel type j e bulk))
        | inr other ↦
            rw (handle_event, flatten, e, other)
              (sym (handle_all-one j s ∙ handle_single-other type j s e other))
      ]
    ]
