-- ===== src/NonBlocking.antt =====
-- gce/actor/nonblocking_actor.hpp and libs/actor/src/nonblocking_actor.cpp: the actor that a thread polls.
-- A `Reader` stands for the reading of the pool's messages by amsg. `none` is undefined behaviour or a
-- failed BOOST_ASSERT.
pub mod Queue
pub mod Deliver
pub mod Conversation
mod Tests
use gce.Prelude.{
  ℕ, Bool, true, false, not, List, [], ◌∷◌, Option, none, some, if◌then◌else◌, ◌==◌, ◌>>=◌,
}
use gce.Ids.{ActorId, nil_aid}
use gce.Atom.{atom}
use gce.Message.{Message, Request, Response, Recv, Tag, Pack, Link, Exit, new_response, nil_request}
use gce.Mailbox.{Mailbox}
use gce.Mailbox.Push.{push_aid, push_request, push_response, push_exit}
use gce.Mailbox.Pop.{pop_recv, pop_response}
use gce.CachePool.{
  CachePool, SocketType, register_socket, deregister_socket, register_service, deregister_service,
}
use gce.BasicActor.{BasicActor, Outcome, WriteExit, check, add_link, remove_link}
use gce.BasicActor.Receive.{handle_stale, sender_and_request}

-- What `pk.msg_ >> ctxid_pr >> skt` and `pk.msg_ >> name >> svc` read.
pub record Reader : Type 0 where
  pub read_socket : Message → (ℕ × SocketType) × ActorId
  pub read_service : Message → ℕ × ActorId

-- `atom("gce_reg_skt")`, `atom("gce_dereg_skt")`, `atom("gce_reg_svc")`, `atom("gce_dereg_svc")`
unfoldable pub msg_reg_skt : ℕ
msg_reg_skt = atom (103 ∷ 99 ∷ 101 ∷ 95 ∷ 114 ∷ 101 ∷ 103 ∷ 95 ∷ 115 ∷ 107 ∷ 116 ∷ [])

unfoldable pub msg_dereg_skt : ℕ
msg_dereg_skt = atom (103 ∷ 99 ∷ 101 ∷ 95 ∷ 100 ∷ 101 ∷ 114 ∷ 101 ∷ 103 ∷ 95 ∷ 115 ∷ 107 ∷ 116 ∷ [])

unfoldable pub msg_reg_svc : ℕ
msg_reg_svc = atom (103 ∷ 99 ∷ 101 ∷ 95 ∷ 114 ∷ 101 ∷ 103 ∷ 95 ∷ 115 ∷ 118 ∷ 99 ∷ [])

unfoldable pub msg_dereg_svc : ℕ
msg_dereg_svc = atom (103 ∷ 99 ∷ 101 ∷ 95 ∷ 100 ∷ 101 ∷ 114 ∷ 101 ∷ 103 ∷ 95 ∷ 115 ∷ 118 ∷ 99 ∷ [])

abbrev with_mb : BasicActor → Option Mailbox → Option BasicActor
with_mb b none = none
with_mb b (some mb) = some (record b { mb = mb })

-- `handle_recv` for a message that an actor sent: the pool's own types, then the mailbox.
unfoldable pub handle_message : Reader → ActorId → Message → BasicActor → Option BasicActor
handle_message reader aid msg b =
    if msg.type == msg_reg_skt
    then (let (pr, skt) = reader.read_socket msg in
        some (record b { user = register_socket pr skt b.user }))
    else if msg.type == msg_dereg_skt
    then (let (pr, skt) = reader.read_socket msg in
        some (record b { user = deregister_socket pr skt b.user }))
    else if msg.type == msg_reg_svc
    then (let (name, svc) = reader.read_service msg in
        some (record b { user = register_service name svc b.user }))
    else if msg.type == msg_dereg_svc
    then (let (name, svc) = reader.read_service msg in
        some (record b { user = deregister_service name svc b.user }))
    else with_mb b (push_aid aid msg b.mb)

-- `handle_recv` for a pack to the actor itself.
unfoldable pub handle_own : Reader → Tag → ActorId → Message → BasicActor → Option BasicActor
handle_own reader (Tag.from_aid aid) skt msg b = handle_message reader aid msg b
handle_own reader (Tag.request req) skt msg b = with_mb b (push_request req msg b.mb)
handle_own reader (Tag.link l) skt msg b = some (add_link l.aid skt b)
handle_own reader (Tag.exit ex) skt msg b = do
  c ← with_mb b (push_exit ex msg b.mb)
  some (remove_link ex.aid c)
handle_own reader (Tag.response res) skt msg b = some (record b { mb = push_response res msg b.mb })
handle_own reader (Tag.fwd_link _) skt msg b = some b
handle_own reader (Tag.fwd_exit _) skt msg b = some b
handle_own reader (Tag.spawn _) skt msg b = some b
handle_own reader (Tag.spawn_ret _) skt msg b = some b

-- `handle_recv`; `aid_at` is the `aid_` of the actor at an address.
unfoldable pub handle_recv : WriteExit → Reader → (ℕ → ActorId) → Pack → BasicActor → Outcome
handle_recv write_exit reader aid_at pk b =
    if check aid_at pk.recver b.ctxid b.timestamp
    then (do c ← handle_own reader pk.tag pk.skt pk.msg b; some ([], c))
    else if pk.is_err_ret
    then some ([], b)
    else handle_stale write_exit pk.tag pk.recver b

-- `recv(message&, match_list_t const&)` past `move_pack`: `none` beside the actor if nothing matches.
unfoldable pub recv_match :
    List ℕ → BasicActor → Option (Option ((ActorId × Option Request) × Message) × BasicActor)
recv_match match_list b = do
  (found, mb) ← pop_recv match_list b.mb
  elim found [
    | none ↦ some (none, record b { mb = mb })
    | some (rcv, msg) ↦ some (some (sender_and_request rcv, msg), record b { mb = mb })
  ]

-- `recv(response_t, message&)` past `move_pack`. The response is passed by value: the sender returned
-- is that of the response popped.
unfoldable pub recv_response :
    Response → BasicActor → Option (Option (ActorId × Message) × BasicActor)
recv_response res b = do
  (found, mb) ← pop_response res b.mb
  elim found [
    | none ↦ some (none, record b { mb = mb })
    | some (answer, msg) ↦ some (some (answer.aid, msg), record b { mb = mb })
  ]
