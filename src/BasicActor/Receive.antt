-- ===== src/BasicActor/Receive.antt =====
-- What the actors share in receiving: the same lines stand in libs/actor/src/nonblocking_actor.cpp,
-- thread_mapped_actor.cpp, coroutine_stackful_actor.cpp and coroutine_stackless_actor.cpp.
use gce.Prelude.{[], Option, none, some, ◌>>=◌}
use gce.Ids.{ActorId}
use gce.Message.{Message, Request, Recv, Tag, new_response}
use gce.Mailbox.Push.{push_aid, push_request, push_response, push_exit}
use gce.BasicActor.{BasicActor, Outcome, WriteExit, add_link, remove_link}
use gce.BasicActor.Sends.{send_already_exited}

-- `handle_recv` for a pack to an actor that has exited.
unfoldable pub handle_stale : WriteExit → Tag → ActorId → BasicActor → Outcome
handle_stale write_exit (Tag.link l) recver b =
    send_already_exited write_exit l.aid (Tag.from_aid recver) b
handle_stale write_exit (Tag.request req) recver b =
    send_already_exited write_exit req.aid (Tag.response (new_response req.id recver)) b
handle_stale write_exit (Tag.from_aid _) recver b = some ([], b)
handle_stale write_exit (Tag.response _) recver b = some ([], b)
handle_stale write_exit (Tag.exit _) recver b = some ([], b)
handle_stale write_exit (Tag.fwd_link _) recver b = some ([], b)
handle_stale write_exit (Tag.fwd_exit _) recver b = some ([], b)
handle_stale write_exit (Tag.spawn _) recver b = some ([], b)
handle_stale write_exit (Tag.spawn_ret _) recver b = some ([], b)

-- The sender that `recv` returns, and what it puts in the `req_` of the message.
unfoldable pub sender_and_request : Recv → ActorId × Option Request
sender_and_request (Recv.from_aid aid) = (aid, none)
sender_and_request (Recv.request req) = (req.aid, some req)
sender_and_request (Recv.exit ex) = (ex.aid, none)

-- What `handle_recv` knows of a pack that it has filed: a link returns at once, and the other tags differ
-- in `is_response`.
pub data Filed : Type 0 where
  linking plain response : Filed

-- The first part of `handle_recv`, for a pack to the actor itself.
unfoldable pub file_pack : Tag → ActorId → Message → BasicActor → Option (Filed × BasicActor)
file_pack (Tag.from_aid aid) skt msg b = do
  mb ← push_aid aid msg b.mb
  some (plain, record b { mb = mb })
file_pack (Tag.request req) skt msg b = do
  mb ← push_request req msg b.mb
  some (plain, record b { mb = mb })
file_pack (Tag.link l) skt msg b = some (linking, add_link l.aid skt b)
file_pack (Tag.exit ex) skt msg b = do
  mb ← push_exit ex msg b.mb
  some (plain, remove_link ex.aid (record b { mb = mb }))
file_pack (Tag.response res) skt msg b =
    some (response, record b { mb = push_response res msg b.mb })
file_pack (Tag.fwd_link _) skt msg b = some (plain, b)
file_pack (Tag.fwd_exit _) skt msg b = some (plain, b)
file_pack (Tag.spawn _) skt msg b = some (plain, b)
file_pack (Tag.spawn_ret _) skt msg b = some (plain, b)
