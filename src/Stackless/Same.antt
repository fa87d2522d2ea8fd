-- ===== src/Stackless/Same.antt =====
-- A stackless actor receives as a thread-mapped one does: the two machines side by side.
use gce.Prelude.{ℕ, ◌≡◌, ◌≢◌, sym, subst, List, Option, some}
use gce.Ids.{ActorId}
use gce.Message.{Response, Pack}
use gce.BasicActor.{WriteExit}
use gce.ThreadMapped.{Thread, Value, received, answered, Timeout, at_once, bounded, endless}
use gce.ThreadMapped
use gce.Stackless.{Stackless, Outputs, recv, recv_response, handle_recv, handle_timeout, recv_timer}
use gce.Stackless.Steps.{view, SameAs, recv-Same, response-Same, handle_recv-Same, fires-Same}

-- The events that both actors have: a call of `recv` or of `recv` for a response, a pack that arrives, the end
-- of the timer of a `recv`.
pub data Event : Type 0 where
  receives : ℕ → List ℕ → Timeout → Event
  awaits : ℕ → Response → Timeout → Event
  arrives : Pack → Event
  fires : ℕ → ℕ → Event

unfoldable pub react : WriteExit → (ℕ → ActorId) → Event → Stackless → Outputs
react write_exit aid_at (receives f ts tmo) s = recv f ts tmo s
react write_exit aid_at (awaits f res tmo) s = recv_response f res tmo s
react write_exit aid_at (arrives pk) s = handle_recv write_exit aid_at s.base.timestamp pk s
react write_exit aid_at (fires hdr sid) s =
    handle_timeout (record { kind = recv_timer; hdr = hdr; sid = sid }) s

unfoldable pub react_mapped : WriteExit → (ℕ → ActorId) → Event → Thread → ThreadMapped.Outputs
react_mapped write_exit aid_at (receives f ts tmo) a = ThreadMapped.try_recv f ts tmo a
react_mapped write_exit aid_at (awaits f res tmo) a = ThreadMapped.try_response f res tmo a
react_mapped write_exit aid_at (arrives pk) a = ThreadMapped.handle_recv write_exit aid_at pk a
react_mapped write_exit aid_at (fires p sid) a =
    ThreadMapped.handle_timeout (record { kind = ThreadMapped.recv_timer; promise = p; sid = sid })
      a

-- A response is not asked for with a timeout that is over at once, and a timer that ends has the handler that
-- waits.
abbrev pub Patient : Event → Option ℕ → Type 0
Patient (receives f ts tmo) kept = Unit
Patient (awaits f res tmo) kept = tmo ≢ at_once
Patient (arrives pk) kept = Unit
Patient (fires hdr sid) kept = kept ≡ some hdr

-- Where its id is of its context, a stackless actor calls `recv` of either kind, the one for a response not
-- with a timeout that is over at once; or it is given a pack; or a timer of a `recv` for messages, stale or
-- not, ends that has the handler that waits. Then it fails or answers, starts timers and sends as the
-- thread-mapped actor does that is in the same state, and is in the same state as it after. Of what the
-- thread-mapped actor returns the handler is given the sender and the message, but not the request
-- that came with it.
pub react-SameAs :
    (write_exit : WriteExit) (aid_at : ℕ → ActorId) (e : Event) (s : Stackless)
    → s.base.aid.ctxid ≡ s.base.ctxid
    → Patient e s.recv_h
    → SameAs (react write_exit aid_at e s) (react_mapped write_exit aid_at e (view s))
unfolding react react_mapped
react-SameAs write_exit aid_at (receives f ts tmo) s c p = recv-Same f ts tmo s
react-SameAs write_exit aid_at (awaits f res tmo) s c p = response-Same f res tmo s p
react-SameAs write_exit aid_at (arrives pk) s c p = handle_recv-Same write_exit aid_at pk s c
react-SameAs write_exit aid_at (fires hdr sid) s c p =
    subst
      (λ o.
        SameAs
          (handle_timeout (record { kind = recv_timer; hdr = hdr; sid = sid })
            (record s { recv_h = o }))
          (ThreadMapped.handle_timeout
            (record { kind = ThreadMapped.recv_timer; promise = hdr; sid = sid })
            (view (record s { recv_h = o }))))
      (sym p) (fires-Same hdr sid s)
