-- ===== src/ThreadMapped/World.antt =====
-- A thread and its actor: the calls of the thread one after the other, each of which waits for its promise,
-- and what the strand of the actor runs. The calls that send are those of gce.BasicActor.Sends. A timer
-- that was cancelled may still end without an error, if it had expired before, so that each that was
-- started can.
use gce.Prelude.{
  ℕ, zero, suc, Bool, List, [], ◌∷◌, ◌++◌, Option, none, some, if◌then◌else◌, ◌==◌, ◌>>=◌, length,
}
use gce.Ids.{ActorId}
use gce.Message.{Response, Pack}
use gce.BasicActor.{BasicActor, WriteExit}
use gce.ThreadMapped.{
  Thread, Timer, Timeout, Output, sets, starts, cancels, sends, Outputs, new_thread, try_recv,
  try_response, handle_timeout, handle_recv,
}

-- `recv(message&, match const&)`, `recv(response_t, message&, duration_t)`, the end of the timer at a place
-- among those that were started, and `on_recv`.
pub data Event : Type 0 where
  calls_recv : List ℕ → Timeout → Event
  calls_response : Response → Timeout → Event
  fires : ℕ → Event
  arrives : Pack → Event

-- `answers` lists the promises that were set.
pub record World : Type 0 where
  pub thread : Thread
  pub timers : List Timer
  pub calls : ℕ
  pub answers : List ℕ

unfoldable pub new_world : BasicActor → World
new_world b = record { thread = new_thread b; timers = []; calls = 0; answers = [] }

-- The thread is not in a call.
abbrev pub is_free : World → Bool
is_free w = length w.answers == w.calls

abbrev pub absorb : List Output → World → World
absorb [] w = w
absorb (sets p v ∷ outs) w = absorb outs (record w { answers = w.answers ++ (p ∷ []) })
absorb (starts t ∷ outs) w = absorb outs (record w { timers = t ∷ w.timers })
absorb (cancels ∷ outs) w = absorb outs w
absorb (sends s ∷ outs) w = absorb outs w

abbrev pub settle : World → List Output × Thread → World
settle w (outs, a) = absorb outs (record w { thread = a })

abbrev pub pick : ℕ → List Timer → Option (Timer × List Timer)
pick n [] = none
pick zero (t ∷ ts) = some (t, ts)
pick (suc n) (t ∷ ts) = elim (pick n ts) [ none ↦ none | some (u, rest) ↦ some (u, t ∷ rest) ]

abbrev pub call : (ℕ → Thread → Outputs) → World → Option World
call f w =
    if is_free w
    then (do out ← f w.calls w.thread; some (settle (record w { calls = suc w.calls }) out))
    else some w

unfoldable pub world_step : WriteExit → (ℕ → ActorId) → Event → World → Option World
world_step write_exit aid_at (calls_recv match_list tmo) w = call (λ p. try_recv p match_list tmo) w
world_step write_exit aid_at (calls_response res tmo) w = call (λ p. try_response p res tmo) w
world_step write_exit aid_at (fires n) w = elim (pick n w.timers) [
  | none ↦ some w
  | some (t, rest) ↦ do
    out ← handle_timeout t w.thread
    some (settle (record w { timers = rest }) out)
]
world_step write_exit aid_at (arrives pk) w = do
  out ← handle_recv write_exit aid_at pk w.thread
  some (settle w out)

unfoldable pub world_run : WriteExit → (ℕ → ActorId) → List Event → World → Option World
world_run write_exit aid_at [] w = some w
world_run write_exit aid_at (e ∷ es) w = do
  v ← world_step write_exit aid_at e w
  world_run write_exit aid_at es v
