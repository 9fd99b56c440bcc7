-- ===== src/Timers.antt =====
-- The timers of src/cluster/misc.cpp. The steady clock is read in milliseconds.
pub mod Firing
use stoatpp.Prelude.{
  ℕ, suc, ◌-◌, ◌/◌, Bool, true, false, List, [], ◌∷◌, ◌++◌, ◌==◌, leb, ◌||◌, is_nil, ◌^◌,
  if◌then◌else◌,
}

pub record TimerInfo : Type 0 where
  pub id : ℕ
  pub interval_seconds : ℕ
  pub last_run : ℕ

-- The timers, and the callbacks that the loop has collected and not yet called, by the ids of their timers.
pub record Timers : Type 0 where
  pub timers : List TimerInfo
  pub next_timer_id : ℕ
  pub to_run : List ℕ

-- `cluster::start_timer`: the new state and the timer's id.
unfoldable pub start_timer : Timers → ℕ → ℕ → Timers × ℕ
start_timer s now interval = (
  record {
    timers =
        s.timers
        ++ (record { id = s.next_timer_id; interval_seconds = interval; last_run = now }) ∷ [];
    next_timer_id = suc s.next_timer_id;
    to_run = s.to_run;
  },
  s.next_timer_id,
)

-- `find_if` and `erase`
abbrev pub erase_timer : ℕ → List TimerInfo → List TimerInfo × Bool
erase_timer id [] = ([], false)
erase_timer id (t ∷ ts) =
    let rest = erase_timer id ts in if t.id == id then (ts, true) else (t ∷ rest.0, rest.1)

-- `cluster::stop_timer`
unfoldable pub stop_timer : Timers → ℕ → Timers × Bool
stop_timer s id = let found = erase_timer id s.timers in (record s { timers = found.0 }, found.1)

-- The interval is an unsigned number that the code casts to a signed one.
abbrev pub is_due : ℕ → TimerInfo → Bool
is_due now t = leb (2 ^ 63) t.interval_seconds || leb t.interval_seconds ((now - t.last_run) / 1000)

-- The locked section of the loop: the timers to run, in order, and the list with its new times.
unfoldable pub collect_due : ℕ → List TimerInfo → List TimerInfo × List ℕ
collect_due now [] = ([], [])
collect_due now (t ∷ ts) =
    let rest = collect_due now ts in
    if is_due now t
    then (record t { last_run = now } ∷ rest.0, t.id ∷ rest.1)
    else (t ∷ rest.0, rest.1)

-- A round of `cluster::run_timer_loop` has several steps. The first, under the lock, comes when the callbacks of the
-- round before have been called.
unfoldable pub collect_round : Timers → ℕ → Timers
unfolding collect_due
collect_round s now =
    if is_nil s.to_run
    then (let due = collect_due now s.timers in record s { timers = due.0; to_run = due.1 })
    else s

-- The others, outside the lock, each call the next callback: the ids of those that are called.
unfoldable pub call_next_timer : Timers → Timers × List ℕ
call_next_timer s = elim s.to_run [
  | [] ↦ (s, [])
  | id ∷ rest ↦ (record s { to_run = rest }, id ∷ [])
]
