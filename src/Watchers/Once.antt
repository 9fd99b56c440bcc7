-- ===== src/Watchers/Once.antt =====
-- Each watcher is answered once, in whatever order messages and time-outs come.
use stoatpp.Prelude.{
  ℕ, ◌+◌, ◌≤◌, ◌<◌, ◌≡◌, refl, Bool, true, none, some, List, [], ◌∷◌, ◌++◌, ◌==◌, arith, ltb,
  if◌then◌else◌, Bool-cases, Option-cases, inl, inr,
}
use stoatpp.Json.{JsonLib}
use stoatpp.Watchers.{
  MessageWatcher, Watching, Action, await, message, expire, Answer, answered, dispatched,
  take_first, watches, await_message, on_message, on_expire, watch_step, watch_run,
}

-- The watchers of this number, and whether the number is still to be given.
abbrev pub waiting_of : ℕ → List MessageWatcher → ℕ
waiting_of id [] = 0
waiting_of id (w ∷ ws) = (if w.watcher_id == id then 1 else 0) + waiting_of id ws

abbrev pub ungiven : ℕ → Watching → ℕ
ungiven id s = if ltb id s.watcher_counter then 0 else 1

abbrev pub no_watchers : Watching
no_watchers = record { watchers = []; watcher_counter = 0 }

waiting_of-append :
    (id : ℕ) (vs ws : List MessageWatcher)
    → waiting_of id (vs ++ ws) ≡ waiting_of id vs + waiting_of id ws
waiting_of-append id [] ws = omega arith
waiting_of-append id (v ∷ vs) ws = omega (arith, waiting_of-append id vs ws)

waiting_of-take_first :
    (id : ℕ) (fits : MessageWatcher → Bool) (ws : List MessageWatcher) (v : MessageWatcher)
    (rest : List MessageWatcher)
    → take_first fits ws ≡ some (v, rest)
    → waiting_of id ws ≡ (if v.watcher_id == id then 1 else 0) + waiting_of id rest
unfolding take_first
waiting_of-take_first id fits [] v rest h = cc
waiting_of-take_first id fits (w ∷ ws) v rest h = elim (Bool-cases (fits w)) [
  | inl e ↦ ground (arith, (rw (take_first, e) at h))
  | inr e ↦ elim (Option-cases (take_first fits ws)) [
    | inl miss ↦ cc (rw (take_first, e, miss) at h)
    | inr (u, found) ↦
        let tail = waiting_of-take_first id fits ws u.0 u.1 found in
        ground (arith, tail, (rw (take_first, e, found) at h))
  ]
]

take_first-fits :
    (fits : MessageWatcher → Bool) (ws : List MessageWatcher) (v : MessageWatcher)
    (rest : List MessageWatcher)
    → take_first fits ws ≡ some (v, rest)
    → fits v ≡ true
unfolding take_first
take_first-fits fits [] v rest h = cc
take_first-fits fits (w ∷ ws) v rest h = elim (Bool-cases (fits w)) [
  | inl e ↦ cc (e, (rw (take_first, e) at h))
  | inr e ↦ elim (Option-cases (take_first fits ws)) [
    | inl miss ↦ cc (rw (take_first, e, miss) at h)
    | inr (u, found) ↦ cc (take_first-fits fits ws u.0 u.1 found, (rw (take_first, e, found) at h))
  ]
]

take_first-none :
    (id : ℕ) (ws : List MessageWatcher)
    → take_first (λ w. w.watcher_id == id) ws ≡ none
    → waiting_of id ws ≡ 0
unfolding take_first
take_first-none id [] h = refl
take_first-none id (w ∷ ws) h = elim (Bool-cases (w.watcher_id == id)) [
  | inl e ↦ cc (rw (take_first, e) at h)
  | inr e ↦ elim (Option-cases (take_first (λ v. v.watcher_id == id) ws)) [
    | inl miss ↦ rw e (omega (arith, take_first-none id ws miss))
    | inr (u, found) ↦ cc (rw (take_first, e, found) at h)
  ]
]

module _ (J : JsonLib) where
  -- The answers that a watcher of this number gets.
  abbrev pub answers : ℕ → List (Answer J) → ℕ
  answers id [] = 0
  answers id (answered i cb m ∷ as2) = (if i == id then 1 else 0) + answers id as2
  answers id (dispatched m ∷ as2) = answers id as2

  answers-append :
      (id : ℕ) (xs ys : List (Answer J)) → answers id (xs ++ ys) ≡ answers id xs + answers id ys
  answers-append id [] ys = omega arith
  answers-append id (answered i cb m ∷ xs) ys = omega (arith, answers-append id xs ys)
  answers-append id (dispatched m ∷ xs) ys = answers-append id xs ys

  on_expire-counter :
      (id : ℕ) (s : Watching) → (on_expire J s id).0.watcher_counter ≡ s.watcher_counter
  unfolding on_expire
  on_expire-counter id s = elim (Option-cases (take_first (λ w. w.watcher_id == id) s.watchers)) [
    | inl gone ↦ rw (gone, on_expire) refl
    | inr ((w, rest), found) ↦ rw (found, on_expire) refl
  ]

  -- What is still to happen to the watcher of this number.
  abbrev open_for : ℕ → Watching → ℕ
  open_for id s = waiting_of id s.watchers + ungiven id s

  watch_step-open_for :
      (id : ℕ) (s : Watching) (a : Action J)
      → open_for id (watch_step J s a).0 + answers id (watch_step J s a).1 ≡ open_for id s
  unfolding watch_step await_message on_message on_expire
  watch_step-open_for id s (await channel user callback) =
      let new : MessageWatcher = record {
        watcher_id = s.watcher_counter;
        channel_id = channel;
        user_id = user;
        callback = callback;
      } in
      ground (arith, waiting_of-append id s.watchers (new ∷ []))
  watch_step-open_for id s (message msg) =
      elim (Option-cases (take_first (watches J msg) s.watchers)) [
        | inl none_fits ↦ rw (none_fits, watch_step, on_message) (omega arith)
        | inr ((w, rest), found) ↦
            let taken = waiting_of-take_first id (watches J msg) s.watchers w rest found in
            elim (Bool-cases w.callback) [
              | inl set ↦ rw (found, watch_step, on_message, set) (omega (arith, taken))
              | inr unset ↦ rw (found, watch_step, on_message, unset) (omega (arith, taken))
            ]
      ]
  watch_step-open_for id s (expire i) =
      elim (Option-cases (take_first (λ w. w.watcher_id == i) s.watchers)) [
        | inl none_fits ↦ rw (none_fits, watch_step, on_expire) (omega arith)
        | inr ((w, rest), found) ↦
            let taken = waiting_of-take_first id (λ w. w.watcher_id == i) s.watchers w rest found in
            rw (found, watch_step, on_expire) (omega (arith, taken))
      ]

  watch_run-open_for :
      (id : ℕ) (s : Watching) (actions : List (Action J))
      → open_for id (watch_run J s actions).0 + answers id (watch_run J s actions).1 ≡ open_for id s
  unfolding watch_run
  watch_run-open_for id s [] = omega arith
  watch_run-open_for id s (a ∷ actions) =
      let first = watch_step J s a in
      let rest = watch_run-open_for id first.0 actions in
      omega (
        arith,
        watch_step-open_for id s a,
        rest,
        answers-append id first.1 (watch_run J first.0 actions).1,
      )

  fresh : (id : ℕ) → ungiven id no_watchers ≡ 1
  fresh id = ground arith

  -- After any sequence of calls, messages and time-outs, of any order: a number is still to be given, or one
  -- watcher with it waits, or it has been answered, once.
  pub watch_run-answers :
      (id : ℕ) (actions : List (Action J))
      → waiting_of id (watch_run J no_watchers actions).0.watchers
          + ungiven id (watch_run J no_watchers actions).0
          + answers id (watch_run J no_watchers actions).1
        ≡ 1
  watch_run-answers id actions = omega (arith, watch_run-open_for id no_watchers actions, fresh id)

  waiting_of-on_expire :
      (id : ℕ) (s : Watching)
      → waiting_of id s.watchers ≤ 1
      → waiting_of id (on_expire J s id).0.watchers ≡ 0
  unfolding on_expire
  waiting_of-on_expire id s unique =
      elim (Option-cases (take_first (λ w. w.watcher_id == id) s.watchers)) [
        | inl gone ↦ rw (gone, on_expire) (take_first-none id s.watchers gone)
        | inr ((w, rest), found) ↦
            let taken =
              waiting_of-take_first id (λ w. w.watcher_id == id) s.watchers w rest found in
            let named = take_first-fits (λ w. w.watcher_id == id) s.watchers w rest found in
            rw (found, on_expire) (omega (arith, (rw named at taken), unique))
      ]

  -- Once the time of a watcher is over, it has been answered exactly once, whatever came before.
  pub on_expire-answers :
      (id : ℕ) (actions : List (Action J))
      → id < (watch_run J no_watchers actions).0.watcher_counter
      → answers id (watch_run J no_watchers actions).1
          + answers id (on_expire J (watch_run J no_watchers actions).0 id).1
        ≡ 1
  on_expire-answers id actions given =
      let before = watch_run-answers id actions in
      let done = (watch_run J no_watchers actions).0 in
      let step : open_for id (on_expire J done id).0 + answers id (on_expire J done id).1
          ≡ open_for id done =
        unfold watch_step in watch_step-open_for id done (expire id) in
      let gone = waiting_of-on_expire id done (omega (arith, before)) in
      let counter : (on_expire J done id).0.watcher_counter ≡ done.watcher_counter =
        on_expire-counter id done in
      ground (arith, before, step, gone, counter, given)
