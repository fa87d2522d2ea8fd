-- ===== src/ThreadMapped.antt =====
-- gce/actor/thread_mapped_actor.hpp and libs/actor/src/thread_mapped_actor.cpp: the actor that stands for a thread. The thread waits on a promise,
-- a number here; what the strand of the actor does is a list of outputs. `none` is undefined behaviour or
-- a failed BOOST_ASSERT.
pub mod World
pub mod Compare
pub mod Timers
pub mod Tries
pub mod Wakes
pub mod Sane
pub mod Answers
mod Tests
use gce.Prelude.{
  ℕ, ◌+◌, ◌%◌, ◌^◌, Bool, true, false, List, [], ◌∷◌, ◌++◌, Option, none, some, if◌then◌else◌, ◌==◌,
  ◌>>=◌, map,
}
use gce.Ids.{ActorId, nil_aid}
use gce.Message.{
  Message, Recv, Response, Request, Tag, Pack, nil_message, nil_response, request_ok, response_ok,
}
use gce.Mailbox.Pop.{pop_recv, pop_response}
use gce.BasicActor.{BasicActor, Sent, WriteExit, check}
use gce.BasicActor.Receive.{
  Filed, linking, plain, response, file_pack, handle_stale, sender_and_request,
}
use gce.BasicActor.Filing.{with_mailbox}

-- `mach.timeout_` and `tmo`: not above `zero`, below `infin`, or `infin`.
pub data Timeout : Type 0 where
  at_once bounded endless : Timeout

-- `recv_promise_t` and `res_promise_t`, with what `set_value` gives them.
pub data Value : Type 0 where
  received : Recv → Message → Value
  answered : Response → Message → Value

-- The timers that wait for `handle_recv_timeout` and `handle_res_timeout`.
pub data TimerKind : Type 0 where
  recv_timer res_timer : TimerKind

pub record Timer : Type 0 where
  pub kind : TimerKind
  pub promise : ℕ
  pub sid : ℕ

pub data Output : Type 0 where
  sets : ℕ → Value → Output
  starts : Timer → Output
  cancels : Output
  sends : Sent → Output

-- `class thread_mapped_actor`
pub record Thread : Type 0 where
  pub base : BasicActor
  pub recv_p : Option ℕ
  pub res_p : Option ℕ
  pub curr_match : List ℕ
  pub recving_res : Response
  pub tmr_sid : ℕ

abbrev pub Outputs : Type 0
Outputs = Option (List Output × Thread)

-- `thread_mapped_actor(cache_pool*)`, from the base that `update_aid` leaves.
unfoldable pub new_thread : BasicActor → Thread
new_thread b = record {
  base = b;
  recv_p = none;
  res_p = none;
  curr_match = [];
  recving_res = nil_response;
  tmr_sid = 0;
}

abbrev pub next_sid : Thread → ℕ
next_sid a = (a.tmr_sid + 1) % 2 ^ 64

-- `detail::recv_t()`, whose first type is `aid_t`.
abbrev pub nil_recv : Recv
nil_recv = Recv.from_aid nil_aid

-- `try_recv` past `pop`; both overloads of `start_recv_timer` are here and in `await_response`.
unfoldable pub await_recv : ℕ → List ℕ → Timeout → Thread → List Output × Thread
await_recv p match_list at_once a = (sets p (received nil_recv nil_message) ∷ [], a)
await_recv p match_list bounded a = (
  starts (record { kind = recv_timer; promise = p; sid = next_sid a }) ∷ [],
  record a { tmr_sid = next_sid a; recv_p = some p; curr_match = match_list },
)
await_recv p match_list endless a = ([], record a { recv_p = some p; curr_match = match_list })

unfoldable pub try_recv : ℕ → List ℕ → Timeout → Thread → Outputs
try_recv p match_list tmo a = do
  (found, mb) ← pop_recv match_list a.base.mb
  let b = record a { base = with_mailbox mb a.base }
  some (elim found [
    | none ↦ await_recv p match_list tmo b
    | some (rcv, msg) ↦ (sets p (received rcv msg) ∷ [], b)
  ])

-- `try_response` past `pop`: at once, the promise is set to the response that was asked for.
unfoldable pub await_response : ℕ → Response → Timeout → Thread → List Output × Thread
await_response p res at_once a = (sets p (answered res nil_message) ∷ [], a)
await_response p res bounded a = (
  starts (record { kind = res_timer; promise = p; sid = next_sid a }) ∷ [],
  record a { tmr_sid = next_sid a; res_p = some p; recving_res = res },
)
await_response p res endless a = ([], record a { res_p = some p; recving_res = res })

unfoldable pub try_response : ℕ → Response → Timeout → Thread → Outputs
try_response p res tmo a = do
  (found, mb) ← pop_response res a.base.mb
  let b = record a { base = with_mailbox mb a.base }
  some (elim found [
    | none ↦ await_response p res tmo b
    | some (answer, msg) ↦ (sets p (answered answer msg) ∷ [], b)
  ])

abbrev pub is_number : ℕ → Option ℕ → Bool
is_number p none = false
is_number p (some q) = p == q

-- `handle_recv_timeout` and `handle_res_timeout` past their test; `recv_p_` and `res_p_` are the addresses
-- of promises.
unfoldable pub expire : TimerKind → ℕ → Thread → Outputs
expire recv_timer p a =
    if is_number p a.recv_p
    then some
        (sets p (received nil_recv nil_message) ∷ [], record a { recv_p = none; curr_match = [] })
    else none
expire res_timer p a =
    if is_number p a.res_p
    then some (
      sets p (answered nil_response nil_message) ∷ [],
      record a { res_p = none; recving_res = nil_response },
    )
    else none

-- Without an error.
unfoldable pub handle_timeout : Timer → Thread → Outputs
handle_timeout t a = if t.sid == a.tmr_sid then expire t.kind t.promise a else some ([], a)

-- `handle_recv` for a message, when a `recv` waits.
unfoldable pub wake_recv : ℕ → Thread → Outputs
wake_recv p a = do
  (found, mb) ← pop_recv a.curr_match a.base.mb
  let b = record a { base = with_mailbox mb a.base }
  some (elim found [
    | none ↦ ([], b)
    | some (rcv, msg) ↦ (
      sets p (received rcv msg) ∷ cancels ∷ [],
      record b { recv_p = none; curr_match = []; tmr_sid = next_sid b },
    )
  ])

-- `handle_recv` for a response, when a `recv` of a response waits.
unfoldable pub wake_response : ℕ → Thread → Outputs
wake_response p a =
    if response_ok a.recving_res
    then (do
      (found, mb) ← pop_response a.recving_res a.base.mb
      let b = record a { base = with_mailbox mb a.base }
      some (elim found [
        | none ↦ ([], b)
        | some (answer, msg) ↦ (
          sets p (answered answer msg) ∷ cancels ∷ [],
          record b { res_p = none; recving_res = nil_response; tmr_sid = next_sid b },
        )
      ]))
    else none

-- `if (recv_p_)` and `if (res_p_)`
abbrev pub if_kept : Option ℕ → (ℕ → Thread → Outputs) → Thread → Outputs
if_kept none f a = some ([], a)
if_kept (some p) f a = f p a

-- The second part of `handle_recv`.
unfoldable pub wake : Filed → Thread → Outputs
wake linking a = some ([], a)
wake plain a = if_kept a.recv_p wake_recv a
wake response a = if_kept a.res_p wake_response a

unfoldable pub handle_recv : WriteExit → (ℕ → ActorId) → Pack → Thread → Outputs
handle_recv write_exit aid_at pk a =
    if check aid_at pk.recver a.base.ctxid a.base.timestamp
    then (do (filed, b) ← file_pack pk.tag pk.skt pk.msg a.base; wake filed (record a { base = b }))
    else if pk.is_err_ret
    then some ([], a)
    else (do
      (sent, b) ← handle_stale write_exit pk.tag pk.recver a.base
      some (map sends sent, record a { base = b }))
