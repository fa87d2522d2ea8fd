-- ===== src/Stackful/Same.antt =====
-- A stackful actor receives as a thread-mapped one does: the two machines side by side.
use gce.Prelude.{ℕ, ◌≡◌, ◌≢◌, sym, subst, Bool, true, false, ◌&&◌, ◌||◌, List, some}
use gce.Ids.{ActorId}
use gce.Message.{Message, Response, Pack, nil_message}
use gce.BasicActor.{WriteExit}
use gce.ThreadMapped.{Thread, Timeout, at_once, bounded, endless, recv_timer, res_timer, Timer}
use gce.ThreadMapped
use gce.Stackful.{Stackful, Outputs, recv, recv_response, handle_recv_timeout, handle_recv}
use gce.Stackful.Steps.{
  view, SameAs, at_call, recv-Same, response-Same, handle_recv-Same, fires-Same, timer_of,
}

-- The events that both actors have.
pub data Event : Type 0 where
  receives : List ℕ → Timeout → Event
  awaits : Response → Timeout → Event
  arrives : Pack → Event
  fires : ℕ → Event

unfoldable pub proceed : WriteExit → (ℕ → ActorId) → Event → Stackful → Outputs
proceed write_exit aid_at (receives ts tmo) s = recv ts tmo s
proceed write_exit aid_at (awaits res tmo) s = recv_response res tmo s
proceed write_exit aid_at (arrives pk) s = handle_recv write_exit aid_at pk s
proceed write_exit aid_at (fires sid) s = some (handle_recv_timeout sid s)

unfoldable pub proceed_mapped :
    WriteExit → (ℕ → ActorId) → Bool → Event → Thread → ThreadMapped.Outputs
proceed_mapped write_exit aid_at recving (receives ts tmo) a = ThreadMapped.try_recv 0 ts tmo a
proceed_mapped write_exit aid_at recving (awaits res tmo) a = ThreadMapped.try_response 0 res tmo a
proceed_mapped write_exit aid_at recving (arrives pk) a =
    ThreadMapped.handle_recv write_exit aid_at pk a
proceed_mapped write_exit aid_at recving (fires sid) a =
    ThreadMapped.handle_timeout (timer_of recving sid) a

-- The coroutine calls `recv` when it is in no call, the one for a response not with a timeout that is over at
-- once, and a timer ends when it is in one.
abbrev pub Allowed : Event → Bool → Bool → Type 0
Allowed (receives ts tmo) b c = b || c ≡ false
Allowed (awaits res tmo) b c = (b || c ≡ false) × (tmo ≢ at_once)
Allowed (arrives pk) b c = Unit
Allowed (fires sid) b c = b || c ≡ true

proceed_at :
    (write_exit : WriteExit) (aid_at : ℕ → ActorId) (e : Event) (b c : Bool) (s : Stackful)
    → b && c ≡ false
    → Allowed e b c
    → SameAs nil_message
        (proceed write_exit aid_at e (at_call b c s))
        (proceed_mapped write_exit aid_at b e (view (at_call b c s)))
unfolding proceed proceed_mapped
proceed_at write_exit aid_at (receives ts tmo) false false s one h = recv-Same ts tmo s
proceed_at write_exit aid_at (receives ts tmo) true c s one h = absurd cc
proceed_at write_exit aid_at (receives ts tmo) false true s one h = absurd cc
proceed_at write_exit aid_at (awaits res tmo) false false s one (h, late) =
    response-Same res tmo s late
proceed_at write_exit aid_at (awaits res tmo) true c s one (h, late) = absurd cc
proceed_at write_exit aid_at (awaits res tmo) false true s one (h, late) = absurd cc
proceed_at write_exit aid_at (arrives pk) b c s one h =
    handle_recv-Same write_exit aid_at pk b c s one
proceed_at write_exit aid_at (fires sid) b c s one h = fires-Same sid b c s one h

-- A coroutine is not in both kinds of `recv`. It calls `recv` of either kind when it is in no call, the one
-- for a response not with a timeout that is over at once; or it is given a pack; or a timer, stale or
-- not, ends when it is in a call. The message that it gives to `recv` to be assigned is empty. Then it
-- fails or returns from its call, starts timers and sends as the thread-mapped actor answers, starts and
-- sends that is in the same state, and is in the same state as it after.
pub proceed-SameAs :
    (write_exit : WriteExit) (aid_at : ℕ → ActorId) (old : Message) (e : Event) (s : Stackful)
    → s.recving && s.responsing ≡ false
    → Allowed e s.recving s.responsing
    → old ≡ nil_message
    → SameAs old
        (proceed write_exit aid_at e s)
        (proceed_mapped write_exit aid_at s.recving e (view s))
proceed-SameAs write_exit aid_at old e s one h empty =
    subst
      (λ m.
        SameAs m (proceed write_exit aid_at e s)
          (proceed_mapped write_exit aid_at s.recving e (view s)))
      (sym empty) (proceed_at write_exit aid_at e s.recving s.responsing s one h)
