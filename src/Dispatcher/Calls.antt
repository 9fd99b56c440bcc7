-- ===== src/Dispatcher/Calls.antt =====
-- The dispatcher of src/event_handler.cpp. A handler is known by a number, and `run` is what the handlers do:
-- each changes a world (whatever handlers write) and may register other handlers.
use stoatpp.Prelude.{ℕ, Bool, true, false, Option, some, List, [], ◌∷◌, ◌++◌, if◌then◌else◌}
use stoatpp.Text.{Text}
use stoatpp.Json.{JsonLib}
use stoatpp.Events.Event.{Event}
use stoatpp.Dispatcher.Kinds.{Kind, same_kind, kind_of, subject}

-- A call of `on_...`: the kind, and the handler.
abbrev pub Registration : Type 0
Registration = Kind × ℕ

-- The vectors of handlers.
abbrev pub Dispatcher : Type 0
Dispatcher = Kind → List ℕ

abbrev pub no_handlers : Dispatcher
no_handlers k = []

-- `on_...`: the handler goes to the end of its vector.
unfoldable pub register : Dispatcher → Registration → Dispatcher
unfolding same_kind
register d (kind, handler) k = if same_kind kind k then d k ++ handler ∷ [] else d k

abbrev pub register_all : Dispatcher → List Registration → Dispatcher
register_all d [] = d
register_all d (r ∷ rs) = register_all (register d r) rs

-- What a handler leaves: the world, what it has registered, and whether it has thrown.
abbrev pub Runs : JsonLib → Type 0 → Type 0
Runs J W = ℕ → W → Event J → W × List Registration × Bool

module _ (J : JsonLib) (W : Type 0) (run : Runs J W)
    (should_ignore_user : Option (Text → Bool)) where
  -- `if (should_ignore_user && should_ignore_user(id)) return;`
  abbrev pub rejects : Option (Text → Bool) → Option Text → Bool
  rejects (some f) (some id) = f id
  rejects _ _ = false

  unfoldable pub is_ignored : Event J → Bool
  unfolding subject
  is_ignored e = rejects should_ignore_user (subject J e)

  -- `for (auto& h : handlers) h(e);`, what the handlers register, and whether one throws, which ends the loop.
  unfoldable pub call_all : List ℕ → W → Event J → W × List Registration × Bool
  call_all [] w e = (w, [], false)
  call_all (h ∷ hs) w e =
      let (w', registered, threw) = run h w e in
      let (w'', more, ends) = call_all hs w' e in
      if threw then (w', registered, true) else (w'', registered ++ more, ends)

  -- `dispatch_...`: the vector is copied, and its handlers run, whatever they register meanwhile. The exception of a
  -- handler leaves it.
  unfoldable pub dispatch : Dispatcher → W → Event J → W × Dispatcher × Bool
  unfolding is_ignored call_all kind_of
  dispatch d w e =
      if is_ignored e
      then (w, d, false)
      else (let (w', registered, threw) = call_all (d (kind_of J e)) w e in
          (w', register_all d registered, threw))

  -- Events whose callers each catch what is thrown: also which of them throw.
  abbrev pub dispatch_all : Dispatcher → W → List (Event J) → W × Dispatcher × List Bool
  dispatch_all d w [] = (w, d, [])
  dispatch_all d w (e ∷ es) =
      let (w', d', threw) = dispatch d w e in
      let (w'', d'', more) = dispatch_all d' w' es in (w'', d'', threw ∷ more)
