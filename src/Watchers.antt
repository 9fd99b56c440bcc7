-- ===== src/Watchers.antt =====
-- `cluster::await_message` of src/cluster/messaging.cpp and the message listener of
-- src/cluster/commands.cpp: a bot waits for the next message of a channel, for a limited time. Watchers are
-- known by the number in `watcher_id`.
pub mod Once
use stoatpp.Prelude.{
  ℕ, suc, Bool, true, false, Option, none, some, List, [], ◌∷◌, ◌++◌, ◌==◌, ◌&&◌, ◌||◌, is_nil,
  if◌then◌else◌,
}
use stoatpp.Text.{Text, text_eq}
use stoatpp.Json.{JsonLib}
use stoatpp.Events.{Message}

pub record MessageWatcher : Type 0 where
  pub watcher_id : ℕ
  pub channel_id : Text
  -- empty for any user
  pub user_id : Text
  -- whether the callback is set
  pub callback : Bool

pub record Watching : Type 0 where
  pub watchers : List MessageWatcher
  pub watcher_counter : ℕ

-- What happens: a call of `await_message`, a message, the end of a watcher's time.
pub data Action (J : JsonLib) : Type 0 where
  await : Text → Text → Bool → Action J
  message : Message J → Action J
  expire : ℕ → Action J

pub data Answer (J : JsonLib) : Type 0 where
  -- the watcher's callback is called, if it is set, with the message or with nothing
  answered : ℕ → Bool → Option (Message J) → Answer J
  -- the message goes on to `dispatch_command`
  dispatched : Message J → Answer J

-- `find_if` and `erase`: the first watcher that fits, and the others.
unfoldable pub take_first :
    (MessageWatcher → Bool) → List MessageWatcher → Option (MessageWatcher × List MessageWatcher)
take_first fits [] = none
take_first fits (w ∷ ws) =
    let others = take_first fits ws in
    if fits w
    then some (w, ws)
    else elim others [ none ↦ none | some (v, rest) ↦ some (v, w ∷ rest) ]

module _ (J : JsonLib) where
  abbrev pub watches : Message J → MessageWatcher → Bool
  watches msg w =
      text_eq w.channel_id msg.channel_id && (is_nil w.user_id || text_eq w.user_id msg.author.id)

  unfoldable pub await_message : Watching → Text → Text → Bool → Watching
  await_message s channel user callback = record {
    watchers =
        s.watchers
        ++ (record {
          watcher_id = s.watcher_counter;
          channel_id = channel;
          user_id = user;
          callback = callback;
        })
          ∷ [];
    watcher_counter = suc s.watcher_counter;
  }

  -- The listener of `Message`. A watcher without a callback is removed and the message is dispatched.
  unfoldable pub on_message : Watching → Message J → Watching × List (Answer J)
  on_message s msg = elim (take_first (watches msg) s.watchers) [
    | none ↦ (s, dispatched msg ∷ [])
    | some (w, rest) ↦ (
      record s { watchers = rest },
      answered w.watcher_id w.callback (some msg)
          ∷ (if w.callback then [] else dispatched msg ∷ []),
    )
  ]

  -- The thread of `await_message`, when its time is over.
  unfoldable pub on_expire : Watching → ℕ → Watching × List (Answer J)
  on_expire s id = elim (take_first (λ w. w.watcher_id == id) s.watchers) [
    | none ↦ (s, [])
    | some (w, rest) ↦ (record s { watchers = rest }, answered w.watcher_id w.callback none ∷ [])
  ]

  unfoldable pub watch_step : Watching → Action J → Watching × List (Answer J)
  watch_step s (await channel user callback) = (await_message s channel user callback, [])
  watch_step s (message msg) = on_message s msg
  watch_step s (expire id) = on_expire s id

  -- Any sequence of such steps.
  unfoldable pub watch_run : Watching → List (Action J) → Watching × List (Answer J)
  watch_run s [] = (s, [])
  watch_run s (a ∷ actions) =
      let first = watch_step s a in
      let rest = watch_run first.0 actions in (rest.0, first.1 ++ rest.1)
