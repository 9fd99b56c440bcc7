-- ===== src/Timers/Firing.antt =====
-- When the timers of src/cluster/misc.cpp fire.
use stoatpp.Prelude.{
  ℕ, ◌+◌, ◌≤◌, ◌≡◌, refl, true, List, [], ◌∷◌, ◌++◌, ◌==◌, arith, ltb, if◌then◌else◌, ap, ◌∙◌,
  Bool-cases, List-cases, inl, inr,
}
use stoatpp.Timers.{
  TimerInfo, Timers, start_timer, erase_timer, stop_timer, is_due, collect_due, collect_round,
  call_next_timer,
}

abbrev pub timers_of : ℕ → List TimerInfo → ℕ
timers_of id [] = 0
timers_of id (t ∷ ts) = (if t.id == id then 1 else 0) + timers_of id ts

abbrev pub count : ℕ → List ℕ → ℕ
count id [] = 0
count id (i ∷ is) = (if i == id then 1 else 0) + count id is

-- What happens to the timers: a start, with the time and the interval, a stop, the collection of what is due at a
-- time, the call of a callback. What a callback itself starts and stops comes behind its call.
pub data TimerAction : Type 0 where
  start : ℕ → ℕ → TimerAction
  stop : ℕ → TimerAction
  collect : ℕ → TimerAction
  call : TimerAction

-- A step: the ids whose callbacks are called.
unfoldable pub timer_step : Timers → TimerAction → Timers × List ℕ
timer_step s (start now interval) = ((start_timer s now interval).0, [])
timer_step s (stop id) = ((stop_timer s id).0, [])
timer_step s (collect now) = (collect_round s now, [])
timer_step s call = call_next_timer s

abbrev pub timer_run : Timers → List TimerAction → Timers × List ℕ
timer_run s [] = (s, [])
timer_run s (a ∷ actions) =
    let p = timer_step s a in let q = timer_run p.0 actions in (q.0, p.1 ++ q.1)

abbrev pub no_timers : Timers
no_timers = record { timers = []; next_timer_id = 1; to_run = [] }

timers_of-append :
    (id : ℕ) (xs ys : List TimerInfo) → timers_of id (xs ++ ys) ≡ timers_of id xs + timers_of id ys
timers_of-append id [] ys = omega arith
timers_of-append id (t ∷ xs) ys = omega (arith, timers_of-append id xs ys)

timers_of-collect_due :
    (id now : ℕ) (ts : List TimerInfo)
    → (timers_of id (collect_due now ts).0 ≡ timers_of id ts)
      × (count id (collect_due now ts).1 ≤ timers_of id ts)
unfolding collect_due
timers_of-collect_due id now [] = (refl, omega arith)
timers_of-collect_due id now (t ∷ ts) =
    let tail = timers_of-collect_due id now ts in
    elim (Bool-cases (is_due now t)) [
      | inl e ↦ rw (e, collect_due) (omega (arith, tail.0), omega (arith, tail.1))
      | inr e ↦ rw (e, collect_due) (omega (arith, tail.0), omega (arith, tail.1))
    ]

timers_of-erase_timer :
    (id i : ℕ) (ts : List TimerInfo)
    → timers_of id (erase_timer i ts).0
        + (if i == id then (if (erase_timer i ts).1 then 1 else 0) else 0)
      ≡ timers_of id ts
timers_of-erase_timer id i [] = ground arith
timers_of-erase_timer id i (t ∷ ts) = ground (arith, timers_of-erase_timer id i ts)

-- What is left of an id: its timers, and whether it is still to be given.
abbrev pub left_of : ℕ → Timers → ℕ
left_of id s = timers_of id s.timers + (if ltb id s.next_timer_id then 0 else 1)

count-append : (id : ℕ) (xs ys : List ℕ) → count id (xs ++ ys) ≡ count id xs + count id ys
count-append id [] ys = omega arith
count-append id (x ∷ xs) ys = omega (arith, count-append id xs ys)

-- What a step does to an id: no timer of it is made anew, and as long as none is left, what is collected is only called.
abbrev Ages : ℕ → Timers → Timers × List ℕ → Type 0
Ages id s p =
    (left_of id p.0 ≤ left_of id s)
    × (left_of id s ≡ 0 → count id p.1 + count id p.0.to_run ≡ count id s.to_run)
    × (left_of id s ≤ 1 → count id s.to_run ≤ 1 → count id p.0.to_run ≤ 1)

start_timer-Ages :
    (id : ℕ) (s : Timers) (now interval : ℕ) → Ages id s ((start_timer s now interval).0, [])
unfolding start_timer
start_timer-Ages id s now interval =
    let new : TimerInfo = record {
      id = s.next_timer_id;
      interval_seconds = interval;
      last_run = now;
    } in
    (ground (arith, timers_of-append id s.timers (new ∷ [])), (λ _. omega arith), (λ _ h. h))

stop_timer-to_run : (id : ℕ) (s : Timers) → count id (stop_timer s id).0.to_run ≡ count id s.to_run
unfolding stop_timer
stop_timer-to_run id s = refl

stop_timer-Ages : (id : ℕ) (s : Timers) (i : ℕ) → Ages id s ((stop_timer s i).0, [])
unfolding stop_timer
stop_timer-Ages id s i =
    (omega (arith, timers_of-erase_timer id i s.timers), (λ _. omega arith), (λ _ h. h))

collect_round-Ages : (id : ℕ) (s : Timers) (now : ℕ) → Ages id s (collect_round s now, [])
unfolding collect_round
collect_round-Ages id s now = elim (List-cases s.to_run) [
  | inl none_left ↦
      let due = timers_of-collect_due id now s.timers in
      rw (collect_round, none_left)
        (
          omega (arith, due.0),
          (λ gone. omega (arith, due.1, gone)),
          (λ once _. omega (arith, due.1, once)),
        )
  | inr (i, rest, some_left) ↦
      rw (collect_round, some_left) (omega arith, (λ _. omega arith), (λ _ h. h))
]

call_next_timer-Ages : (id : ℕ) (s : Timers) → Ages id s (call_next_timer s)
unfolding call_next_timer
call_next_timer-Ages id s = elim (List-cases s.to_run) [
  | inl none_left ↦
      let same : count id s.to_run ≡ count id [] = ap (count id) none_left in
      rw (call_next_timer, none_left)
        (omega arith, (λ _. omega (arith, same)), (λ _ h. omega (arith, h, same)))
  | inr (i, rest, some_left) ↦
      rw (call_next_timer, some_left) (omega arith, (λ _. omega arith), (λ _ h. omega (arith, h)))
]

timer_step-Ages : (id : ℕ) (s : Timers) (a : TimerAction) → Ages id s (timer_step s a)
unfolding timer_step
timer_step-Ages id s (start now interval) = start_timer-Ages id s now interval
timer_step-Ages id s (stop i) = stop_timer-Ages id s i
timer_step-Ages id s (collect now) = collect_round-Ages id s now
timer_step-Ages id s call = call_next_timer-Ages id s

timer_run-Ages :
    (id : ℕ) (s : Timers) (actions : List TimerAction) → Ages id s (timer_run s actions)
timer_run-Ages id s [] = (omega arith, (λ _. omega arith), (λ _ h. h))
timer_run-Ages id s (a ∷ actions) =
    let p = timer_step s a in
    let now = timer_step-Ages id s a in
    let later = timer_run-Ages id p.0 actions in
    (
      omega (arith, now.0, later.0),
      (λ gone. omega (
        arith,
        count-append id p.1 (timer_run p.0 actions).1,
        now.1 gone,
        later.1 (omega (arith, now.0, gone)),
      )),
      (λ once h. later.2 (omega (arith, now.0, once)) (now.2 once h)),
    )

stop_timer-left_of :
    (id : ℕ) (s : Timers)
    → left_of id s ≤ 1
    → (stop_timer s id).1 ≡ true
    → left_of id (stop_timer s id).0 ≡ 0
unfolding stop_timer
stop_timer-left_of id s once found = ground (arith, timers_of-erase_timer id id s.timers)

unique : (id : ℕ) → left_of id no_timers ≤ 1
unique id = ground arith

-- Once `stop_timer` has found a timer, whatever was started, stopped, collected and called before, and is after it:
-- the timer is never collected again, and what a call of its callback can still come from is what the loop had
-- collected before the stop and not yet called. That is at most one call.
pub stop_timer-silent :
    (before after : List TimerAction) (id : ℕ)
    → (stop_timer (timer_run no_timers before).0 id).1 ≡ true
    → (count id (timer_run (stop_timer (timer_run no_timers before).0 id).0 after).1
          + count id (timer_run (stop_timer (timer_run no_timers before).0 id).0 after).0.to_run
        ≡ count id (timer_run no_timers before).0.to_run)
      × (count id (timer_run no_timers before).0.to_run ≤ 1)
stop_timer-silent before after id found =
    let s = (timer_run no_timers before).0 in
    let aged = timer_run-Ages id no_timers before in
    let once : left_of id s ≤ 1 = omega (arith, aged.0, unique id) in
    let rest = timer_run-Ages id (stop_timer s id).0 after in
    (
      rest.1 (stop_timer-left_of id s once found) ∙ stop_timer-to_run id s,
      aged.2 (unique id) (omega arith),
    )
