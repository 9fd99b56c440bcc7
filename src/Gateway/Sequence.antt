-- ===== src/Gateway/Sequence.antt =====
-- Calls that follow each other in `gateway::handle_event` of src/gateway.cpp, up to the first exception.
use mathlib.Core.List.{append_assoc, append-nil}
use stoatpp.Prelude.{◌≡◌, refl, ap, sym, ◌∙◌, List, [], ◌∷◌, ◌++◌}
use stoatpp.Json.{JsonLib}
use stoatpp.Gateway.Session.{
  Session, GatewayEffect, End, SessionOutcome, done, threw, exhausted, finish, and_then, glue,
}
use stoatpp.Gateway.Handle.{handle_all}

module _ (J : JsonLib) where
  pub glue-append :
      (a b : List (GatewayEffect J)) (x : End) (s : Session J) (q : SessionOutcome J)
      → glue J (a ++ b) x s q ≡ record (glue J b x s q) { effects = a ++ (glue J b x s q).effects }
  unfolding glue
  glue-append a b done s q = ap (λ e. record q { effects = e }) (append_assoc a b q.effects)
  glue-append a b threw s q = refl
  glue-append a b exhausted s q = refl

  pub and_then-glue :
      (a : List (GatewayEffect J)) (x : End) (s : Session J) (f g : Session J → SessionOutcome J)
      → and_then J (glue J a x s (f s)) g ≡ glue J a x s (and_then J (f s) g)
  unfolding glue and_then
  and_then-glue a done s f g = glue-append a (f s).effects (f s).ended (f s).after (g (f s).after)
  and_then-glue a threw s f g = refl
  and_then-glue a exhausted s f g = refl

  pub and_then_assoc :
      (o : SessionOutcome J) (f g : Session J → SessionOutcome J)
      → and_then J (and_then J o f) g ≡ and_then J o (λ s. and_then J (f s) g)
  unfolding and_then
  and_then_assoc o f g = and_then-glue o.effects o.ended o.after f g

  pub glue-finish :
      (a : List (GatewayEffect J)) (x : End) (s : Session J)
      → glue J a x s (finish J s []) ≡ record { after = s; effects = a; ended = x }
  unfolding glue
  glue-finish a done s = ap (λ e. record { after = s; effects = e; ended = done }) (append-nil a)
  glue-finish a threw s = refl
  glue-finish a exhausted s = refl

  pub and_then-finish : (o : SessionOutcome J) → and_then J o (λ s. finish J s []) ≡ o
  unfolding and_then
  and_then-finish o = glue-finish o.effects o.ended o.after

  pub handle_all-append :
      (h : J.Json → Session J → SessionOutcome J) (xs ys : List J.Json) (s : Session J)
      → handle_all J h (xs ++ ys) s ≡ and_then J (handle_all J h xs s) (handle_all J h ys)
  unfolding handle_all and_then glue
  handle_all-append h [] ys s = refl
  handle_all-append h (x ∷ xs) ys s =
      ap (glue J (h x s).effects (h x s).ended (h x s).after)
        (handle_all-append h xs ys (h x s).after)
      ∙ sym (and_then_assoc (h x s) (handle_all J h xs) (handle_all J h ys))
