-- ===== src/Heartbeat.antt =====
-- gce/actor/detail/heartbeat.hpp and libs/actor/src/heartbeat.cpp: the count of the periods in which a
-- connection is silent. The timers and the functions that it calls are outputs. `none` is the exception
-- of a call of an empty function.
pub mod Silence
mod Tests
use gce.Prelude.{
  ℕ, ◌+◌, ◌-◌, ◌%◌, ◌^◌, Bool, true, false, not, ◌&&◌, List, [], ◌∷◌, ◌++◌, Option, none, some,
  if◌then◌else◌, ◌==◌, ◌>>=◌,
}

-- `timeout_`: `socket::close`, which calls `stop`, or `socket::reconn`, which does not.
pub data TimeoutFunc : Type 0 where
  close reconn : TimeoutFunc

-- `class heartbeat`; `tick` says that `tick_` is not empty.
pub record Heartbeat : Type 0 where
  pub max_count : ℕ
  pub curr_count : ℕ
  pub timeout : Option TimeoutFunc
  pub tick : Bool
  pub stopped : Bool
  pub waiting : ℕ

pub data Output : Type 0 where
  ticks times_out starts_timer cancels_timer cancels_sync : Output

-- `heartbeat(strand_t&)`
unfoldable pub new_heartbeat : Heartbeat
new_heartbeat = record {
  max_count = 0;
  curr_count = 0;
  timeout = none;
  tick = false;
  stopped = false;
  waiting = 0;
}

unfoldable pub clear : Heartbeat → Heartbeat
clear h = record h { timeout = none; tick = false }

unfoldable pub init : ℕ → TimeoutFunc → Bool → Heartbeat → Heartbeat
unfolding clear
init max_count f tick h = record (clear h) {
  max_count = if max_count == 0 then 1 else max_count;
  timeout = some f;
  tick = tick;
}

unfoldable pub start_timer : Heartbeat → List Output × Heartbeat
start_timer h = (starts_timer ∷ [], record h { waiting = (h.waiting + 1) % 2 ^ 64 })

unfoldable pub start : Heartbeat → List Output × Heartbeat
start h = start_timer (record h { curr_count = h.max_count; stopped = false })

unfoldable pub stop : Heartbeat → List Output × Heartbeat
stop h = if h.stopped then ([], h) else (cancels_timer ∷ [], record h { stopped = true })

unfoldable pub beat : Heartbeat → Heartbeat
beat h = if h.stopped then h else record h { curr_count = h.max_count }

-- `x - 1` on `size_t`
abbrev pub less_one : ℕ → ℕ
less_one n = (n + (2 ^ 64 - 1)) % 2 ^ 64

-- `timeout_()`
unfoldable pub call_timeout : Option TimeoutFunc → Heartbeat → Option (List Output × Heartbeat)
call_timeout none h = none
call_timeout (some reconn) h = some (times_out ∷ [], h)
call_timeout (some close) h = let (outs, g) = stop h in some (times_out ∷ outs, g)

-- The first part of `handle_timeout`, past its test.
unfoldable pub count_down : Heartbeat → Option (List Output × Heartbeat)
count_down h = do
  let g = record h { curr_count = less_one h.curr_count }
  (outs, f) ← if g.curr_count == 0 then call_timeout g.timeout g else some (start_timer g)
  some ((if g.tick then ticks ∷ [] else []) ++ outs, f)

-- `failed` is `errc`.
unfoldable pub handle_timeout : Bool → Heartbeat → Option (List Output × Heartbeat)
handle_timeout failed h = do
  let g = record h { waiting = less_one h.waiting }
  (outs, f) ← if not g.stopped && not failed then count_down g else some ([], g)
  some (outs ++ (if f.stopped then cancels_sync ∷ [] else []), f)

-- A message arrives, or the timer ends if one waits.
pub data Event : Type 0 where
  beats ends : Event

unfoldable pub step : Event → Heartbeat → Option (List Output × Heartbeat)
step beats h = some ([], beat h)
step ends h = if h.waiting == 0 then some ([], h) else handle_timeout false h

unfoldable pub run : List Event → Heartbeat → Option (List Output)
run [] h = some []
run (e ∷ es) h = do (now, g) ← step e h; later ← run es g; some (now ++ later)
