-- ===== src/Stackful.antt =====
-- libs/actor/src/coroutine_stackful_actor.cpp: the actor that runs as a coroutine. A `recv` is in two parts, up
-- to `yield` and from `resume`, which go on in the coroutine at once. `none` is undefined behaviour or
-- a failed BOOST_ASSERT.
pub mod Steps
pub mod Same
mod Tests
use gce.Prelude.{
  ℕ, ◌+◌, ◌%◌, ◌^◌, Bool, true, false, List, [], ◌∷◌, ◌++◌, Option, none, some, if◌then◌else◌, ◌==◌,
  ◌>>=◌, map, leb, ltb,
}
use gce.Ids.{ActorId, nil_aid}
use gce.Atom.{atom}
use gce.Message.{
  Message, Recv, Response, Request, Tag, Pack, nil_message, nil_response, response_ok,
}
use gce.Mailbox.Pop.{pop_recv, pop_response}
use gce.BasicActor.{BasicActor, Sent, WriteExit, check, update_aid, on_free}
use gce.BasicActor.Sends.{send_exit}
use gce.BasicActor.Receive.{
  Filed, linking, plain, response, file_pack, handle_stale, sender_and_request,
}
use gce.BasicActor.Filing.{with_mailbox}
use gce.ThreadMapped.{Timeout, at_once, bounded, endless, nil_recv}

-- `enum status`
pub data Status : Type 0 where
  ready on off : Status

-- `enum actor_code`
pub data ActorCode : Type 0 where
  actor_normal actor_timeout : ActorCode

-- A `recv` returns its sender, and assigns to the message of its caller or leaves that as it was; a `wait` returns, a timer, `tmr_.cancel`, a pack.
pub data Output : Type 0 where
  returns : ActorId × Option Request → Option Message → Output
  wakes : Output
  starts : ℕ → Output
  cancels : Output
  sends : Sent → Output

-- `class coroutine_stackful_actor`
pub record Stackful : Type 0 where
  pub base : BasicActor
  pub stat : Status
  pub recving : Bool
  pub responsing : Bool
  pub recving_rcv : Recv
  pub recving_res : Response
  pub recving_msg : Message
  pub curr_match : List ℕ
  pub tmr_sid : ℕ
  pub ec : ℕ
  pub exit_msg : List ℕ

abbrev pub Outputs : Type 0
Outputs = Option (List Output × Stackful)

-- `exit_normal`: `atom("gce_ex_normal")`
unfoldable pub exit_normal : ℕ
exit_normal = atom (103 ∷ 99 ∷ 101 ∷ 95 ∷ 101 ∷ 120 ∷ 95 ∷ 110 ∷ 111 ∷ 114 ∷ 109 ∷ 97 ∷ 108 ∷ [])

-- `coroutine_stackful_actor(cache_pool*)`
unfoldable pub new_stackful : BasicActor → Stackful
new_stackful b = record {
  base = b;
  stat = ready;
  recving = false;
  responsing = false;
  recving_rcv = nil_recv;
  recving_res = nil_response;
  recving_msg = nil_message;
  curr_match = [];
  tmr_sid = 0;
  ec = exit_normal;
  exit_msg = [];
}

abbrev pub next_sid : Stackful → ℕ
next_sid s = (s.tmr_sid + 1) % 2 ^ 64

-- `return sender` when nothing has come: the message of the caller is as it was.
abbrev pub nothing : Output
nothing = returns (nil_aid, none) none

-- `recv(message&, match const&)` past `pop`, up to `yield`, with `start_recv_timer`.
unfoldable pub await_recv : List ℕ → Timeout → Stackful → List Output × Stackful
await_recv match_list at_once s = (nothing ∷ [], s)
await_recv match_list bounded s = (
  starts (next_sid s) ∷ [],
  record s { recving = true; tmr_sid = next_sid s; curr_match = match_list },
)
await_recv match_list endless s = ([], record s { recving = true; curr_match = match_list })

unfoldable pub recv : List ℕ → Timeout → Stackful → Outputs
recv match_list tmo s = do
  (found, mb) ← pop_recv match_list s.base.mb
  let t = record s { base = with_mailbox mb s.base }
  some (elim found [
    | none ↦ await_recv match_list tmo t
    | some (rcv, msg) ↦ (returns (sender_and_request rcv) (some msg) ∷ [], t)
  ])

-- `recv(response_t, message&, duration_t)` past `pop`, up to `yield`.
unfoldable pub await_response : Timeout → Stackful → List Output × Stackful
await_response at_once s = (nothing ∷ [], s)
await_response bounded s =
    (starts (next_sid s) ∷ [], record s { responsing = true; tmr_sid = next_sid s })
await_response endless s = ([], record s { responsing = true })

unfoldable pub recv_response : Response → Timeout → Stackful → Outputs
recv_response res tmo s = do
  (found, mb) ← pop_response res s.base.mb
  let t = record s { recving_res = res; base = with_mailbox mb s.base }
  some (elim found [
    | none ↦ await_response tmo t
    | some (answer, msg) ↦ (returns (answer.aid, none) (some msg) ∷ [], t)
  ])

-- `recv(message&, match const&)` from `resume`.
unfoldable pub end_recv : ActorCode → Stackful → List Output × Stackful
end_recv actor_timeout s = (nothing ∷ [], record s { recving = false })
end_recv actor_normal s = (
  returns (sender_and_request s.recving_rcv) (some s.recving_msg) ∷ [],
  record s { recving = false; recving_rcv = nil_recv; recving_msg = nil_message },
)

-- `recv(response_t, message&, duration_t)` from `resume`.
unfoldable pub end_response : ActorCode → Stackful → List Output × Stackful
end_response actor_timeout s = (nothing ∷ [], record s { responsing = false })
end_response actor_normal s = (
  returns (s.recving_res.aid, none) (some s.recving_msg) ∷ [],
  record s { responsing = false; recving_res = nil_response; recving_msg = nil_message },
)

-- `resume`, in the `recv` of either kind or in `wait`.
unfoldable pub resume : ActorCode → Stackful → List Output × Stackful
resume ac s =
    if s.recving then end_recv ac s else if s.responsing then end_response ac s else (wakes ∷ [], s)

-- `wait`, up to `yield`.
unfoldable pub wait : Stackful → List Output × Stackful
wait s = (starts (next_sid s) ∷ [], record s { tmr_sid = next_sid s })

-- `handle_recv_timeout`, without an error.
unfoldable pub handle_recv_timeout : ℕ → Stackful → List Output × Stackful
handle_recv_timeout tmr_sid s = if tmr_sid == s.tmr_sid then resume actor_timeout s else ([], s)

-- `++tmr_sid_`, `cancel` and `resume` at the end of `handle_recv`.
unfoldable pub wake_up : Stackful → List Output × Stackful
wake_up s =
    let out = resume actor_normal (record s { tmr_sid = next_sid s }) in (cancels ∷ out.0, out.1)

-- `handle_recv` for a message, when `recving_`.
unfoldable pub wake_recv : Stackful → Outputs
wake_recv s = do
  (found, mb) ← pop_recv s.curr_match s.base.mb
  let t = record s { base = with_mailbox mb s.base }
  some (elim found [
    | none ↦ ([], t)
    | some (rcv, msg) ↦ wake_up (record t { recving_rcv = rcv; recving_msg = msg; curr_match = [] })
  ])

-- `handle_recv` for a response, when `responsing_`.
unfoldable pub wake_response : Stackful → Outputs
wake_response s =
    if response_ok s.recving_res
    then (do
      (found, mb) ← pop_response s.recving_res s.base.mb
      let t = record s { base = with_mailbox mb s.base }
      some (elim found [
        | none ↦ ([], t)
        | some (answer, msg) ↦ wake_up (record t { recving_res = answer; recving_msg = msg })
      ]))
    else none

-- The second part of `handle_recv`.
unfoldable pub wake : Filed → Stackful → Outputs
wake linking s = some ([], s)
wake plain s = if s.recving then wake_recv s else some ([], s)
wake response s = if s.responsing then wake_response s else some ([], s)

unfoldable pub handle_recv : WriteExit → (ℕ → ActorId) → Pack → Stackful → Outputs
handle_recv write_exit aid_at pk s =
    if check aid_at pk.recver s.base.ctxid s.base.timestamp
    then (do (filed, b) ← file_pack pk.tag pk.skt pk.msg s.base; wake filed (record s { base = b }))
    else if pk.is_err_ret
    then some ([], s)
    else (do
      (sent, b) ← handle_stale write_exit pk.tag pk.recver s.base
      some (map sends sent, record s { base = b }))

unfoldable pub init : Stackful → Option Stackful
init s = elim s.stat [
  | ready ↦ some (record s { base = update_aid s.base })
  | on ↦ none
  | off ↦ none
]

-- `stop` past the switch of context.
unfoldable pub stop : ℕ → List ℕ → Stackful → Stackful
stop ec exit_msg s = record s { stat = off; ec = ec; exit_msg = exit_msg }

-- `on_free`: `tmr_sid_` is left as it is.
unfoldable pub free_stackful : Stackful → Stackful
free_stackful s = record s {
  base = on_free s.base;
  stat = ready;
  recving = false;
  responsing = false;
  recving_rcv = nil_recv;
  recving_res = nil_response;
  recving_msg = nil_message;
  curr_match = [];
  ec = exit_normal;
  exit_msg = [];
}

-- `free_self`, with the `on_free` of `free_actor`.
unfoldable pub free_self : WriteExit → Stackful → Outputs
free_self write_exit s = do
  let self_aid = s.base.aid
  (sent, b) ← send_exit write_exit self_aid s.ec s.exit_msg (update_aid s.base)
  some (map sends sent, free_stackful (record s { base = b }))
