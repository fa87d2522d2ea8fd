-- ===== src/BasicActor/Sends.antt =====
-- The `pri_` functions of libs/actor/src/basic_actor.cpp, and those they send through. The `req_` of a
-- message is an argument, and `pri_relay` gives what it leaves in it.
use gce.Prelude.{ℕ, Bool, true, List, [], ◌∷◌, ◌++◌, Option, none, some, if◌then◌else◌, ◌==◌, ◌>>=◌}
use gce.OrdMap.{OrdMap, insert}
use gce.Ids.{ActorId, ServiceId, nil_aid, aid_ok, ctxid_nil}
use gce.Ids.Order.{aid_key}
use gce.Atom.{atom, exit_type}
use gce.Message.{
  Message, Request, Response, Tag, Link, LinkType, linked, monitored, no_link, new_message,
  request_ok, nil_request, new_response, SpawnType, Exit,
}
use gce.Mailbox.Pop.{pop_request}
use gce.CachePool.Sockets.{select_socket}
use gce.BasicActor.{
  BasicActor, SendHint, Sent, Outcome, nil_pack, hint_of, send, filter_aid, filter_svcid, send_to,
  send_to_svc, check_local, add_link, socket_for, already_exited, exit_already, WriteExit,
}

-- `send_already_exited`, both overloads, by the tag that they send.
unfoldable pub send_already_exited : WriteExit → ActorId → Tag → BasicActor → Outcome
send_already_exited write_exit recver tag b = do
  (target, c) ← filter_aid recver b
  if aid_ok target
      then send target
          (record nil_pack {
            tag = tag;
            recver = recver;
            skt = target;
            msg = write_exit exit_already already_exited (new_message exit_type);
            is_err_ret = true;
          })
          SendHint.async c
      else some ([], c)

unfoldable pub pri_send : ActorId → Message → SendHint → BasicActor → Outcome
pri_send recver m hint b = do
  (target, c) ← filter_aid recver b
  if aid_ok target then send_to (Tag.from_aid c.aid) recver target m hint c else some ([], c)

unfoldable pub pri_send_svc : ServiceId → Message → SendHint → BasicActor → Outcome
pri_send_svc recver m hint b = do
  (target, c) ← filter_svcid recver b
  if aid_ok target then send_to_svc (Tag.from_aid c.aid) recver target m hint c else some ([], c)

-- The tag of a relayed message.
unfoldable pub relay_tag : Request → BasicActor → Tag
relay_tag req b = if request_ok req then Tag.request req else Tag.from_aid b.aid

unfoldable pub keep_request : Request → Outcome → Option (Request × List Sent × BasicActor)
keep_request req none = none
keep_request req (some (sent, b)) = some (req, sent, b)

unfoldable pub pri_relay :
    WriteExit
    → ActorId
    → Request
    → Message
    → SendHint
    → BasicActor
    → Option (Request × List Sent × BasicActor)
unfolding keep_request
pri_relay write_exit recver req m hint b = do
  (target, c) ← filter_aid recver b
  if aid_ok target
      then keep_request (if request_ok req then nil_request else req)
          (send_to (relay_tag req c) recver target m hint c)
      else if request_ok req
      then keep_request req
          (send_already_exited write_exit req.aid (Tag.response (new_response req.id recver)) c)
      else some (req, [], c)

unfoldable pub pri_relay_svc :
    ServiceId
    → Request
    → Message
    → SendHint
    → BasicActor
    → Option (Request × List Sent × BasicActor)
unfolding keep_request
pri_relay_svc recver req m hint b = do
  (target, c) ← filter_svcid recver b
  if aid_ok target
      then keep_request (if request_ok req then nil_request else req)
          (send_to_svc (relay_tag req c) recver target m hint c)
      else some (req, [], c)

unfoldable pub pri_request :
    WriteExit → Response → ActorId → Message → SendHint → BasicActor → Outcome
pri_request write_exit res recver m hint b = do
  (target, c) ← filter_aid recver b
  if aid_ok target
      then send_to (Tag.request (record { id = res.id; aid = c.aid })) recver target m hint c
      else send_already_exited write_exit c.aid (Tag.response (new_response res.id recver)) c

unfoldable pub pri_request_svc : Response → ServiceId → Message → SendHint → BasicActor → Outcome
pri_request_svc res recver m hint b = do
  (target, c) ← filter_svcid recver b
  if aid_ok target
      then send_to_svc (Tag.request (record { id = res.id; aid = c.aid })) recver target m hint c
      else some ([], c)

-- The tag of a reply, by the request that the mailbox gives.
unfoldable pub reply_tag : Option Request → ActorId → Tag
reply_tag (some req) aid = Tag.response (new_response req.id aid)
reply_tag none aid = Tag.from_aid aid

unfoldable pub pri_reply : ActorId → Message → SendHint → BasicActor → Outcome
unfolding reply_tag
pri_reply recver m hint b = do
  (target, c) ← filter_aid recver b
  if aid_ok target
      then (let (req, mb) : Option Request × _ = pop_request recver c.mb in
          send_to (reply_tag req c.aid) recver target m hint (record c { mb = mb }))
      else some ([], c)

-- `link` past the choice of the socket.
unfoldable pub file_link : LinkType → ActorId → ActorId → BasicActor → BasicActor
file_link linked recver skt b = add_link recver skt b
file_link monitored recver skt b = record b { monitor_list = insert recver tt b.monitor_list }
file_link no_link recver skt b = record b { monitor_list = insert recver tt b.monitor_list }

-- `message(msg_link)`: `atom("gce_link")`
unfoldable pub msg_link : ℕ
msg_link = atom (103 ∷ 99 ∷ 101 ∷ 95 ∷ 108 ∷ 105 ∷ 110 ∷ 107 ∷ [])

unfoldable pub announce_link :
    LinkType → ActorId → ActorId → ActorId → SendHint → BasicActor → Outcome
announce_link type recver skt target hint b =
    send target
      (record nil_pack {
        tag = Tag.link (record { type = type; aid = b.aid });
        recver = recver;
        skt = skt;
        msg = new_message msg_link;
      })
      (hint_of b hint) b

-- `link`; `has_user` says that its last argument is `user_`, not 0.
unfoldable pub link : WriteExit → Link → SendHint → Bool → BasicActor → Outcome
link write_exit l hint has_user b =
    if check_local l.aid b.ctxid
    then (let c = file_link l.type l.aid nil_aid b in
        if has_user then announce_link l.type l.aid nil_aid l.aid hint c else some ([], c))
    else (if has_user
        then (do
          (skt, c) ← socket_for l.aid.ctxid b
          if aid_ok skt
              then announce_link l.type l.aid skt skt hint (file_link l.type l.aid skt c)
              else send_already_exited write_exit c.aid (Tag.from_aid l.aid) c)
        else none)

unfoldable pub pri_link : WriteExit → ActorId → SendHint → BasicActor → Outcome
pri_link write_exit target hint b =
    link write_exit (record { type = linked; aid = target }) hint true b

unfoldable pub pri_monitor : WriteExit → ActorId → SendHint → BasicActor → Outcome
pri_monitor write_exit target hint b =
    link write_exit (record { type = monitored; aid = target }) hint true b

-- `message(msg_spawn)`: `atom("gce_spawn")`
unfoldable pub msg_spawn : ℕ
msg_spawn = atom (103 ∷ 99 ∷ 101 ∷ 95 ∷ 115 ∷ 112 ∷ 97 ∷ 119 ∷ 110 ∷ [])

-- `runtime_error("no socket available")`, or what was sent.
pub data Spawned : Type 0 where
  no_socket : BasicActor → Spawned
  spawning : List Sent × BasicActor → Spawned

unfoldable pub sent_spawn : Outcome → Option Spawned
sent_spawn none = none
sent_spawn (some out) = some (spawning out)

-- The context to spawn in: `*target` is read only if none is asked for, and must have been written.
unfoldable pub spawn_ctxid : ℕ → Option ℕ → Option ℕ
spawn_ctxid ctxid target = if ctxid == ctxid_nil then target else some ctxid

unfoldable pub pri_spawn : ℕ → SpawnType → ℕ → ℕ → ℕ → SendHint → BasicActor → Option Spawned
pri_spawn sid type func ctxid stack_size hint b = do
  (skt, target, user) ← select_socket ctxid b.user
  let c = record b { user = user }
  if aid_ok skt
      then (do
        to ← spawn_ctxid ctxid target
        sent_spawn (
            send skt
              (record nil_pack {
                tag = Tag.spawn (record {
                  type = type;
                  func = func;
                  ctxid = to;
                  stack_size = stack_size;
                  sid = sid;
                  aid = c.aid;
                });
                skt = skt;
                msg = new_message msg_spawn;
              })
              (hint_of c hint) c))
      else some (no_socket c)

-- The loop of `send_exit` over the links.
unfoldable pub send_exits : Message → Exit → OrdMap ActorId ActorId → BasicActor → Outcome
send_exits m ex [] b = some ([], b)
send_exits m ex ((aid, skt) ∷ links) b = do
  let target = if aid_ok skt then skt else aid
  (sent, c) ←
      send target (record nil_pack { tag = Tag.exit ex; recver = aid; skt = target; msg = m })
        SendHint.async b
  (more, d) ← send_exits m ex links c
  some (sent ++ more, d)

unfoldable pub send_exit : WriteExit → ActorId → ℕ → List ℕ → BasicActor → Outcome
send_exit write_exit self_aid ec exit_msg b =
    send_exits (write_exit ec exit_msg (new_message exit_type))
      (record { code = ec; aid = self_aid }) b.link_list b
