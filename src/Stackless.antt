-- ===== src/Stackless.antt =====
-- libs/actor/src/coroutine_stackless_actor.cpp: the actor that runs as handlers on a strand. A handler is a
-- number; what it does is a later event, and one that throws is followed by a call of `quit`. `none` is
-- undefined behaviour or a failed BOOST_ASSERT.
pub mod Steps
pub mod Same
pub mod Quit
mod Tests
use gce.Prelude.{
  ℕ, ◌+◌, ◌%◌, ◌^◌, Bool, true, false, List, [], ◌∷◌, ◌++◌, Option, none, some, if◌then◌else◌, ◌==◌,
  ◌>>=◌, map, is_some,
}
use gce.Ids.{ActorId, nil_aid}
use gce.Message.{
  Message, Recv, Response, Request, Tag, Pack, nil_message, nil_response, response_ok,
}
use gce.Mailbox.Pop.{pop_recv, pop_response}
use gce.BasicActor.{BasicActor, Sent, WriteExit, check, update_aid, on_free}
use gce.BasicActor.Sends.{send_exit}
use gce.BasicActor.Receive.{
  Filed, linking, plain, response, file_pack, handle_stale, sender_and_request,
}
use gce.BasicActor.Filing.{with_mailbox}
use gce.ThreadMapped.{Timeout, at_once, bounded, endless}
use gce.ThreadMapped.Compare.{Given}

-- `enum status`
pub data Status : Type 0 where
  ready on off : Status

-- What a handler of a `recv` is given when there is no message.
abbrev pub nothing : Given
nothing = ((nil_aid, none), nil_message)

-- `message(message const&)`, by which a handler has its message, does not copy `req_`.
unfoldable pub by_value : Given → Given
by_value ((sender, req), msg) = ((sender, none), msg)

-- The timers that wait for `handle_recv_timeout`, `handle_res_timeout` and `handle_wait_timeout`.
pub data TimerKind : Type 0 where
  recv_timer res_timer wait_timer : TimerKind

pub record Timer : Type 0 where
  pub kind : TimerKind
  pub hdr : ℕ
  pub sid : ℕ

-- A handler that is called, with what it is given or nothing; one that is posted; a timer; `tmr_.cancel`; a
-- pack; `stop` that is posted.
pub data Output : Type 0 where
  calls : ℕ → Given → Output
  calls_back : ℕ → Output
  posts : ℕ → Given → Output
  starts : Timer → Output
  cancels : Output
  sends : Sent → Output
  posts_stop : ActorId → ℕ → List ℕ → Output

-- `class coroutine_stackless_actor`
pub record Stackless : Type 0 where
  pub base : BasicActor
  pub stat : Status
  pub recv_h : Option ℕ
  pub res_h : Option ℕ
  pub wait_h : Option ℕ
  pub curr_match : List ℕ
  pub recving_res : Response
  pub tmr_sid : ℕ

abbrev pub Outputs : Type 0
Outputs = Option (List Output × Stackless)

-- `coroutine_stackless_actor(cache_pool*)`
unfoldable pub new_stackless : BasicActor → Stackless
new_stackless b = record {
  base = b;
  stat = ready;
  recv_h = none;
  res_h = none;
  wait_h = none;
  curr_match = [];
  recving_res = nil_response;
  tmr_sid = 0;
}

abbrev pub next_sid : Stackless → ℕ
next_sid s = (s.tmr_sid + 1) % 2 ^ 64

-- `recv(recv_handler_t const&, match const&)` past `pop`, with `start_recv_timer`.
unfoldable pub await_recv : ℕ → List ℕ → Timeout → Stackless → List Output × Stackless
await_recv f match_list at_once s = (posts f nothing ∷ [], s)
await_recv f match_list bounded s = (
  starts (record { kind = recv_timer; hdr = f; sid = next_sid s }) ∷ [],
  record s { tmr_sid = next_sid s; recv_h = some f; curr_match = match_list },
)
await_recv f match_list endless s = ([], record s { recv_h = some f; curr_match = match_list })

unfoldable pub recv : ℕ → List ℕ → Timeout → Stackless → Outputs
recv f match_list tmo s = do
  (found, mb) ← pop_recv match_list s.base.mb
  let t = record s { base = with_mailbox mb s.base }
  some (elim found [
    | none ↦ await_recv f match_list tmo t
    | some (rcv, msg) ↦ (posts f (by_value (sender_and_request rcv, msg)) ∷ [], t)
  ])

-- `recv(recv_handler_t const&, response_t, duration_t)` past `pop`, with `start_res_timer`.
unfoldable pub await_response : ℕ → Response → Timeout → Stackless → List Output × Stackless
await_response f res at_once s = (posts f nothing ∷ [], s)
await_response f res bounded s = (
  starts (record { kind = res_timer; hdr = f; sid = next_sid s }) ∷ [],
  record s { tmr_sid = next_sid s; res_h = some f; recving_res = res },
)
await_response f res endless s = ([], record s { res_h = some f; recving_res = res })

unfoldable pub recv_response : ℕ → Response → Timeout → Stackless → Outputs
recv_response f res tmo s = do
  (found, mb) ← pop_response res s.base.mb
  let t = record s { base = with_mailbox mb s.base }
  some (elim found [
    | none ↦ await_response f res tmo t
    | some (answer, msg) ↦ (posts f ((answer.aid, none), msg) ∷ [], t)
  ])

-- `wait(wait_handler_t const&, duration_t)`, with `start_wait_timer`.
unfoldable pub wait : ℕ → Stackless → List Output × Stackless
wait f s = (
  starts (record { kind = wait_timer; hdr = f; sid = next_sid s }) ∷ [],
  record s { tmr_sid = next_sid s; wait_h = some f },
)

-- The three handlers of timers past their test.
unfoldable pub expire : TimerKind → ℕ → Stackless → Outputs
expire recv_timer hdr s =
    if is_some s.recv_h
    then some (calls hdr nothing ∷ [], record s { recv_h = none; curr_match = [] })
    else none
expire res_timer hdr s =
    if is_some s.res_h
    then some (calls hdr nothing ∷ [], record s { res_h = none; curr_match = [] })
    else none
expire wait_timer hdr s =
    if is_some s.wait_h then some (calls_back hdr ∷ [], record s { wait_h = none }) else none

-- Without an error.
unfoldable pub handle_timeout : Timer → Stackless → Outputs
handle_timeout t s = if t.sid == s.tmr_sid then expire t.kind t.hdr s else some ([], s)

-- `handle_recv` for a message, when a handler waits for one.
unfoldable pub wake_recv : ℕ → Stackless → Outputs
wake_recv hdr s = do
  (found, mb) ← pop_recv s.curr_match s.base.mb
  let t = record s { base = with_mailbox mb s.base }
  some (elim found [
    | none ↦ ([], t)
    | some (rcv, msg) ↦ (
      cancels ∷ calls hdr (by_value (sender_and_request rcv, msg)) ∷ [],
      record t { recv_h = none; curr_match = []; tmr_sid = next_sid t },
    )
  ])

-- `handle_recv` for a response, when a handler waits for one.
unfoldable pub wake_response : ℕ → Stackless → Outputs
wake_response hdr s =
    if response_ok s.recving_res
    then (do
      (found, mb) ← pop_response s.recving_res s.base.mb
      let t = record s { base = with_mailbox mb s.base }
      some (elim found [
        | none ↦ ([], t)
        | some (answer, msg) ↦ (
          cancels ∷ calls hdr ((answer.aid, none), msg) ∷ [],
          record t { res_h = none; recving_res = nil_response; tmr_sid = next_sid t },
        )
      ]))
    else none

-- `if (recv_h_)` and `if (res_h_)`
abbrev pub if_kept : Option ℕ → (ℕ → Stackless → Outputs) → Stackless → Outputs
if_kept none f s = some ([], s)
if_kept (some hdr) f s = f hdr s

-- The second part of `handle_recv`.
unfoldable pub wake : Filed → Stackless → Outputs
wake linking s = some ([], s)
wake plain s = if_kept s.recv_h wake_recv s
wake response s = if_kept s.res_h wake_response s

-- `timestamp` is that of the context.
unfoldable pub handle_recv : WriteExit → (ℕ → ActorId) → ℕ → Pack → Stackless → Outputs
handle_recv write_exit aid_at timestamp pk s =
    if check aid_at pk.recver s.base.aid.ctxid timestamp
    then (do (filed, b) ← file_pack pk.tag pk.skt pk.msg s.base; wake filed (record s { base = b }))
    else if pk.is_err_ret
    then some ([], s)
    else (do
      (sent, b) ← handle_stale write_exit pk.tag pk.recver s.base
      some (map sends sent, record s { base = b }))

unfoldable pub init : Stackless → Option Stackless
init s = elim s.stat [
  | ready ↦ some (record s { base = update_aid s.base })
  | on ↦ none
  | off ↦ none
]

unfoldable pub quit : ℕ → List ℕ → Stackless → List Output × Stackless
quit exc errmsg s = (posts_stop s.base.aid exc errmsg ∷ [], record s { base = update_aid s.base })

-- `on_free`: `tmr_sid_` is left as it is.
unfoldable pub free_stackless : Stackless → Stackless
free_stackless s = record s {
  base = on_free s.base;
  stat = ready;
  recv_h = none;
  res_h = none;
  wait_h = none;
  curr_match = [];
  recving_res = nil_response;
}

-- `stop`, with the `on_free` of `free_actor`.
unfoldable pub stop : WriteExit → ActorId → ℕ → List ℕ → Stackless → Outputs
stop write_exit self_aid ec exit_msg s = do
  (sent, b) ← send_exit write_exit self_aid ec exit_msg s.base
  some (map sends sent, free_stackless (record s { base = b; stat = off }))
