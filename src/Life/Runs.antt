-- ===== src/Life/Runs.antt =====
-- Runs of `start` and `stop` of src/cluster.cpp.
use stoatpp.Prelude.{
  ◌≡◌, refl, ap, Bool, true, false, Option, none, some, List, ◌++◌, arith, Bool-cases, inl, inr,
  ◌∙◌, subst,
}
use stoatpp.Text.{Text}
use stoatpp.Json.{JsonLib, value_or}
use stoatpp.Rest.Exchange.{Response}
use stoatpp.Life.{Life, LifeEffect, start, stop, discovered_url, set_autumn, start_threads}

-- The bot runs: its timer thread is there, and the address of the file server is this.
abbrev pub Started : Text → Option (Life × List LifeEffect) → Type 0
Started url none = ⊥
Started url (some (life, effects)) =
    (life.has_timer_thread ≡ true) × (life.running ≡ true) × (life.autumn_url ≡ url)

start_threads-Started :
    (p : Life × List LifeEffect)
    → p.0.has_timer_thread ≡ false
    → Started p.0.autumn_url (start_threads p)
start_threads-Started (life, effects) idle = elim (Bool-cases life.has_timer_thread) [
  | inl e ↦ absurd (ground (arith, e, idle))
  | inr e ↦ rw e (refl, refl, refl)
]

set_autumn_url :
    (o : Option Text) (life : Life) → (set_autumn o life).0.autumn_url ≡ value_or o life.autumn_url
set_autumn_url none life = refl
set_autumn_url (some url) life = refl

set_autumn_thread :
    (o : Option Text) (life : Life) → (set_autumn o life).0.has_timer_thread ≡ life.has_timer_thread
set_autumn_thread none life = refl
set_autumn_thread (some url) life = refl

module _ (J : JsonLib) (node : Option (Response J)) (autumn_env : Option Text) where
  -- A cluster whose timer thread is not there starts, with the environment's address of the file server, or else
  -- the node's, or else its own.
  pub start-Started :
      (life : Life)
      → life.has_timer_thread ≡ false
      → Started
          (value_or autumn_env (value_or (discovered_url J node) life.autumn_url))
          (start J node autumn_env life)
  unfolding start
  start-Started life idle =
      let found = set_autumn (discovered_url J node) life in
      let given = set_autumn autumn_env found.0 in
      subst (λ url. Started url (start_threads (given.0, found.1 ++ given.1)))
        (set_autumn_url autumn_env found.0
          ∙ ap (value_or autumn_env) (set_autumn_url (discovered_url J node) life))
        (start_threads-Started (given.0, found.1 ++ given.1)
          (set_autumn_thread autumn_env found.0
            ∙ set_autumn_thread (discovered_url J node) life
            ∙ idle))

  -- So does one that was stopped, whichever thread stopped it.
  pub start-stop :
      (on_timer_thread : Bool) (life : Life)
      → Started
          (value_or autumn_env (value_or (discovered_url J node) life.autumn_url))
          (start J node autumn_env (stop on_timer_thread life).0)
  unfolding stop
  start-stop on_timer_thread life = start-Started (stop on_timer_thread life).0 refl
