-- ===== src/Dispatcher/Order.antt =====
-- The vectors of the dispatcher, against one list of all registrations in the order in which they were made.
use mathlib.Core.List.{append_assoc, append-nil}
use stoatpp.Prelude.{
  ℕ, ◌≡◌, refl, sym, ◌∙◌, Bool, true, false, Option, none, some, List, [], ◌∷◌, ◌++◌, if◌then◌else◌,
  Bool-cases, inl, inr,
}
use stoatpp.Text.{Text}
use stoatpp.Json.{JsonLib}
use stoatpp.Events.Event.{Event}
use stoatpp.Dispatcher.Kinds.{Kind, same_kind, kind_of, subject}
use stoatpp.Dispatcher.Calls.{Registration, Dispatcher, no_handlers, register, register_all, Runs}

-- The handlers registered for a kind, in order.
unfoldable pub handlers_for : List Registration → Kind → List ℕ
handlers_for [] k = []
handlers_for ((kind, handler) ∷ log) k =
    let rest = handlers_for log k in if same_kind kind k then handler ∷ rest else rest

-- The dispatcher after all registrations of a log.
abbrev pub after_log : List Registration → Dispatcher
after_log log = register_all no_handlers log

handlers_of-register_all :
    (d : Dispatcher) (log : List Registration) (k : Kind)
    → register_all d log k ≡ d k ++ handlers_for log k
unfolding register handlers_for
handlers_of-register_all d [] k = sym (append-nil (d k))
handlers_of-register_all d ((kind, handler) ∷ log) k =
    handlers_of-register_all (register d (kind, handler)) log k
    ∙ elim (Bool-cases (same_kind kind k)) [
      | inl e ↦
          rw (register, handlers_for, e) (append_assoc (d k) (handler ∷ []) (handlers_for log k))
      | inr e ↦ rw (register, handlers_for, e) refl
    ]

pub handlers_of-after_log :
    (log : List Registration) (k : Kind) → after_log log k ≡ handlers_for log k
handlers_of-after_log log k = handlers_of-register_all no_handlers log k

module _ (J : JsonLib) (W : Type 0) (run : Runs J W)
    (should_ignore_user : Option (Text → Bool)) where
  -- The filter stops an event of a user that it is set to ignore.
  abbrev stops : Option (Text → Bool) → Option Text → Bool
  stops none user = false
  stops (some f) none = false
  stops (some f) (some id) = f id

  -- An entry of the log that is not of the event's kind is passed over; the handler of another runs on the world that
  -- is left by those before it, and when it throws none behind it runs. What they register is kept.
  unfoldable pub run_log : List Registration → W → Event J → W × List Registration × Bool
  run_log [] w e = (w, [], false)
  run_log ((kind, handler) ∷ log) w e =
      let ran = run handler w e in
      let after = run_log log ran.0 e in
      let passed = run_log log w e in
      if same_kind kind (kind_of J e)
      then (if ran.2 then (ran.0, ran.1, true) else (after.0, ran.1 ++ after.1, after.2))
      else passed

  -- What is promised of a dispatcher: the event goes to the entries of the log, in the order of the log, unless the
  -- filter stops it, and what its handlers register is put at the end of the log.
  unfoldable pub deliver : List Registration → W → Event J → W × List Registration × Bool
  unfolding run_log
  deliver log w e =
      if stops should_ignore_user (subject J e)
      then (w, log, false)
      else (let (w', registered, threw) = run_log log w e in (w', log ++ registered, threw))

  abbrev pub deliver_all :
      List Registration → W → List (Event J) → W × List Registration × List Bool
  deliver_all log w [] = (w, log, [])
  deliver_all log w (e ∷ es) =
      let (w', log', threw) = deliver log w e in
      let (w'', log'', more) = deliver_all log' w' es in (w'', log'', threw ∷ more)

  -- The vectors that the log fills.
  abbrev pub with_vectors : {A : Type 0} → W × List Registration × A → W × Dispatcher × A
  with_vectors (w, log, a) = (w, after_log log, a)
