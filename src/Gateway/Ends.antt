-- ===== src/Gateway/Ends.antt =====
-- `gateway::handle_event` of src/gateway.cpp ends on every event.
use stoatpp.Prelude.{
  ℕ, ◌<◌, ◌≢◌, Option, none, some, List, [], ◌∷◌, arith, inl, inr, Bool-cases, Option-cases,
}
use stoatpp.Prelude.Int.{ℤ}
use stoatpp.Text.{Text, lit, text_eq}
use stoatpp.Json.{JsonLib}
use stoatpp.Gateway.Session.{
  Session, GatewayEffect, End, SessionOutcome, done, threw, exhausted, and_then, glue,
}
use stoatpp.Gateway.Fields.{Built, thrown, built}
use stoatpp.Gateway.Route.{event_of}
use stoatpp.Gateway.Handle.{
  on_authenticated, on_ping, on_pong, hand_over, handle_typed, type_of, handle_all, handle_event,
}
use stoatpp.Gateway.Bulk.{flatten, handle_single, Shrinks, handle_event-flatten}

module _ (J : JsonLib) (clock : ℕ → ℤ) where
  glue-ends :
      (a : List (GatewayEffect J)) (x : End) (s : Session J) (o : SessionOutcome J)
      → x ≢ exhausted
      → o.ended ≢ exhausted
      → (glue J a x s o).ended ≢ exhausted
  unfolding glue
  glue-ends a done s o hx ho = ho
  glue-ends a threw s o hx ho = hx
  glue-ends a exhausted s o hx ho = hx

  hand_over-ends : (b : Option (Built J)) (s : Session J) → (hand_over J s b).ended ≢ exhausted
  hand_over-ends none s = cc
  hand_over-ends (some thrown) s = cc
  hand_over-ends (some (built e)) s = cc

  handle_typed-ends :
      (type : Text) (j : J.Json) (s : Session J) → (handle_typed J clock type j s).ended ≢ exhausted
  unfolding handle_typed on_authenticated on_ping on_pong
  handle_typed-ends type j s = ground (arith, hand_over-ends (event_of J s.self_user type j) s)

  handle_single-ends : (j : J.Json) (s : Session J) → (handle_single J clock j s).ended ≢ exhausted
  unfolding handle_single and_then
  handle_single-ends j s = elim (Option-cases (type_of J j)) [
    | inl e ↦ rw (handle_single, e) cc
    | inr (type, e) ↦ elim (Bool-cases (text_eq type (lit "Bulk"))) [
      | inl bulk ↦ rw (handle_single, e, bulk) cc
      | inr other ↦ rw (handle_single, e, other) (handle_typed-ends type j s)
    ]
  ]

  handle_all-ends :
      (js : List J.Json) (s : Session J)
      → (handle_all J (handle_single J clock) js s).ended ≢ exhausted
  unfolding handle_all and_then
  handle_all-ends [] s = cc
  handle_all-ends (j ∷ js) s =
      glue-ends (handle_single J clock j s).effects (handle_single J clock j s).ended
        (handle_single J clock j s).after
        (handle_all J (handle_single J clock) js (handle_single J clock j s).after)
        (handle_single-ends j s) (handle_all-ends js (handle_single J clock j s).after)

  -- Where the fuel exceeds the nesting of an event, handling it comes to an end: it returns or throws.
  pub handle_event-ends :
      (depth : J.Json → ℕ)
      → Shrinks J depth
      → (fuel : ℕ) (j : J.Json) → depth j < fuel
      → (s : Session J) → (handle_event J clock fuel j s).ended ≢ exhausted
  handle_event-ends depth shrinks fuel j below s =
      rw (handle_event-flatten J clock depth shrinks fuel j below s)
        (handle_all-ends (flatten J fuel j) s)
