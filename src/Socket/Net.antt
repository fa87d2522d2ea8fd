-- ===== src/Socket/Net.antt =====
-- The packs that pass a socket: `handle_recv`, from the actors of the context to the network, and
-- `handle_net_msg`, from the network to the actors or, on a router, to another socket. `aid_at` is the
-- `aid_` of the actor at an address.
use gce.Prelude.{ℕ, Bool, true, false, [], ◌∷◌, ◌++◌, Option, none, some, if◌then◌else◌, ◌>>=◌}
use gce.Key.{nat_key}
use gce.OrdMap.{find}
use gce.Ids.{ActorId, ServiceId, nil_aid, nil_svcid, aid_ok, svc_ok}
use gce.Atom.{atom}
use gce.Message.{
  Message, Tag, Link, LinkType, linked, no_link, monitored, Exit, Spawn, SpawnRet, SpawnError,
  spawn_ok, spawn_no_socket, spawn_func_not_found, new_response, new_message, nil_message, Pack,
}
use gce.Message.Codec.{Codec}
use gce.Message.Tags.{Address, push_tag, pop_tag, error_number}
use gce.CachePool.{find_service}
use gce.CachePool.Sockets.{select_joint_socket}
use gce.BasicActor.{SendHint, nil_pack, send, check, check_local, WriteExit}
use gce.BasicActor.Sends.{send_already_exited}
use gce.BasicActor.Receive.{handle_stale}
use gce.Socket.{
  Socket, spawns, Effects, with_base, send_message, add_straight_link, remove_straight_link,
  add_router_link, remove_router_link,
}

abbrev is_linked : LinkType → Bool
is_linked linked = true
is_linked no_link = false
is_linked monitored = false

-- The pack of a tag, its address and a message.
abbrev pub pack_of : Tag → Address → Message → Pack
pack_of tag a m = record nil_pack {
  tag = tag;
  recver = a.recver;
  svc = a.svc;
  skt = a.skt;
  is_err_ret = a.is_err_ret;
  msg = m;
}

-- `msg_spawn_ret`: `atom("gce_spawn_ret")`
unfoldable pub msg_spawn_ret : ℕ
msg_spawn_ret = atom (103 ∷ 99 ∷ 101 ∷ 95 ∷ 115 ∷ 112 ∷ 97 ∷ 119 ∷ 110 ∷ 95 ∷ 114 ∷ 101 ∷ 116 ∷ [])

-- The links of `handle_recv`, and the tag that goes over the network.
unfoldable pub note_links : Tag → ActorId → Socket → Tag × Socket
note_links (Tag.link l) recver s = (Tag.link l, add_straight_link l.aid recver s)
note_links (Tag.exit ex) recver s = (Tag.exit ex, remove_straight_link ex.aid recver s)
note_links (Tag.fwd_link l) recver s =
    (Tag.link (record { type = l.type; aid = l.aid }), add_router_link l.aid recver l.skt s)
note_links (Tag.fwd_exit ex) recver s =
    let (skt, t) = remove_router_link ex.aid recver s in
    (Tag.exit (record { code = ex.code; aid = ex.aid }), t)
note_links (Tag.from_aid aid) recver s = (Tag.from_aid aid, s)
note_links (Tag.request req) recver s = (Tag.request req, s)
note_links (Tag.response res) recver s = (Tag.response res, s)
note_links (Tag.spawn spw) recver s = (Tag.spawn spw, s)
note_links (Tag.spawn_ret spr) recver s = (Tag.spawn_ret spr, s)

-- `handle_recv`
unfoldable pub handle_recv : WriteExit → Codec → (ℕ → ActorId) → Pack → Socket → Effects
handle_recv write_exit codec aid_at pk s =
    if check aid_at pk.skt s.base.ctxid s.base.timestamp
    then (if check_local pk.recver s.base.ctxid then none else (do
      let (tag, t) = note_links pk.tag pk.recver s
      m ←
          push_tag codec tag
            (record { recver = pk.recver; svc = pk.svc; skt = pk.skt; is_err_ret = pk.is_err_ret })
            pk.msg
      send_message m t))
    else if pk.is_err_ret
    then some ([], s)
    else with_base s (handle_stale write_exit pk.tag pk.recver s.base)

-- `select_joint_socket`
unfoldable pub joint_for : ℕ → Socket → Option (ActorId × Socket)
joint_for ctxid s = do
  (skt, target, user) ← select_joint_socket ctxid s.base.user
  some (skt, record s { base = record (s.base) { user = user } })

-- `base_type::send(..., sync)`
unfoldable pub send_on : ActorId → Pack → Socket → Effects
send_on target pk s = with_base s (send target pk SendHint.sync s.base)

unfoldable pub exited_on : WriteExit → ActorId → Tag → Socket → Effects
exited_on write_exit recver tag s = with_base s (send_already_exited write_exit recver tag s.base)

-- `send_spawn_ret`; `svc` is that of the pack it is given.
unfoldable pub send_spawn_ret :
    Codec → Spawn → Message → ServiceId → SpawnError → ActorId → Bool → Socket → Effects
send_spawn_ret codec spw m svc err aid is_err_ret s = do
  tagged ←
      push_tag codec (Tag.spawn_ret (record { error = err; id = spw.sid; aid = aid }))
        (record { recver = spw.aid; svc = svc; skt = spw.aid; is_err_ret = is_err_ret })
        (record m { type = msg_spawn_ret })
  send_message tagged s

-- `end_spawn_remote_actor`
unfoldable pub end_spawn_remote_actor : Codec → Spawn → ActorId → Socket → Effects
end_spawn_remote_actor codec spw aid s =
    send_spawn_ret codec spw nil_message nil_svcid spawn_ok aid false s

-- The branches of `handle_net_msg` on a router. That of a link reads the link after the tag that holds it
-- was assigned; here it is read before.
unfoldable pub route_link : WriteExit → Link → Address → Message → Socket → Effects
route_link write_exit l a m s = do
  (skt, t) ← joint_for a.recver.ctxid s
  if aid_ok skt
      then (let tag = Tag.fwd_link (record { type = l.type; aid = l.aid; skt = t.base.aid }) in
          send_on skt (pack_of tag (record a { skt = skt }) m)
            (if is_linked l.type then add_router_link a.recver l.aid skt t else t))
      else exited_on write_exit l.aid (Tag.from_aid a.recver) t

unfoldable pub route_exit : Exit → Address → Message → Socket → Effects
route_exit ex a m s =
    let (skt, t) = remove_router_link a.recver ex.aid s in
    if aid_ok skt
    then (let tag = Tag.fwd_exit (record { code = ex.code; aid = ex.aid; skt = t.base.aid }) in
        send_on skt (pack_of tag (record a { skt = skt }) m) t)
    else none

unfoldable pub route_spawn : Codec → Spawn → Address → Message → Socket → Effects
route_spawn codec spw a m s = do
  (skt, t) ← joint_for spw.ctxid s
  if aid_ok skt
      then send_on skt (pack_of (Tag.spawn spw) (record a { skt = skt }) m) t
      else send_spawn_ret codec spw m a.svc spawn_no_socket nil_aid true t

unfoldable pub route_on : ActorId → Tag → Address → Message → Socket → Effects
route_on skt tag a m s =
    if aid_ok skt then send_on skt (pack_of tag (record a { skt = skt }) m) s else some ([], s)

-- A request to an actor that no socket leads to is answered.
unfoldable pub refuse_request : WriteExit → Tag → Address → Socket → Effects
refuse_request write_exit (Tag.request req) a s =
    if svc_ok a.svc
    then some ([], s)
    else exited_on write_exit req.aid (Tag.response (new_response req.id a.recver)) s
refuse_request write_exit (Tag.from_aid _) a s = some ([], s)
refuse_request write_exit (Tag.response _) a s = some ([], s)
refuse_request write_exit (Tag.link _) a s = some ([], s)
refuse_request write_exit (Tag.exit _) a s = some ([], s)
refuse_request write_exit (Tag.fwd_link _) a s = some ([], s)
refuse_request write_exit (Tag.fwd_exit _) a s = some ([], s)
refuse_request write_exit (Tag.spawn _) a s = some ([], s)
refuse_request write_exit (Tag.spawn_ret _) a s = some ([], s)

unfoldable pub route_message : WriteExit → Tag → Address → Message → Socket → Effects
route_message write_exit tag a m s = do
  (skt, t) ← joint_for (if svc_ok a.svc then a.svc.ctxid else a.recver.ctxid) s
  if aid_ok skt then route_on skt tag a m t else refuse_request write_exit tag a t

unfoldable pub route_net : WriteExit → Codec → Tag → Address → Message → Socket → Effects
route_net write_exit codec (Tag.link l) a m s = route_link write_exit l a m s
route_net write_exit codec (Tag.exit ex) a m s = route_exit ex a m s
route_net write_exit codec (Tag.spawn spw) a m s = route_spawn codec spw a m s
route_net write_exit codec (Tag.spawn_ret spr) a m s = do
  (skt, t) ← joint_for a.recver.ctxid s
  route_on skt (Tag.spawn_ret spr) a m t
route_net write_exit codec (Tag.from_aid aid) a m s =
    route_message write_exit (Tag.from_aid aid) a m s
route_net write_exit codec (Tag.request req) a m s =
    route_message write_exit (Tag.request req) a m s
route_net write_exit codec (Tag.response res) a m s =
    route_message write_exit (Tag.response res) a m s
route_net write_exit codec (Tag.fwd_link l) a m s = route_message write_exit (Tag.fwd_link l) a m s
route_net write_exit codec (Tag.fwd_exit ex) a m s =
    route_message write_exit (Tag.fwd_exit ex) a m s

-- The branches of `handle_net_msg` elsewhere.
unfoldable pub net_link : WriteExit → (ℕ → ActorId) → Link → Address → Message → Socket → Effects
net_link write_exit aid_at l a m s =
    if check aid_at a.recver s.base.ctxid s.base.timestamp
    then send_on a.recver (pack_of (Tag.link l) (record a { skt = s.base.aid }) m)
        (if is_linked l.type then add_straight_link a.recver l.aid s else s)
    else exited_on write_exit l.aid (Tag.from_aid a.recver) s

unfoldable pub net_exit : (ℕ → ActorId) → Exit → Address → Message → Socket → Effects
net_exit aid_at ex a m s =
    if check aid_at a.recver s.base.ctxid s.base.timestamp
    then send_on a.recver (pack_of (Tag.exit ex) a m) (remove_straight_link a.recver ex.aid s)
    else some ([], s)

unfoldable pub net_spawn : Codec → Spawn → Address → Message → Socket → Effects
net_spawn codec spw a m s = elim (find spw.func s.remote_list) [
  | none ↦ send_spawn_ret codec spw m a.svc spawn_func_not_found nil_aid true s
  | some f ↦ some (spawns spw f ∷ [], s)
]

unfoldable pub net_spawn_ret :
    Codec → (ℕ → ActorId) → SpawnRet → Address → Message → Socket → Effects
net_spawn_ret codec aid_at spr a m s =
    if check aid_at a.recver s.base.ctxid s.base.timestamp
    then send_on a.recver
        (pack_of (Tag.from_aid (if aid_ok spr.aid then spr.aid else s.base.aid)) a
          (record (new_message msg_spawn_ret) {
            body = codec.write_u16 (error_number spr.error) ++ codec.write_u32 spr.id;
          }))
        s
    else some ([], s)

unfoldable pub net_message : (ℕ → ActorId) → Tag → Address → Message → Socket → Effects
net_message aid_at tag a m s =
    let recver = if svc_ok a.svc then find_service a.svc.name s.base.user else a.recver in
    if check aid_at recver s.base.ctxid s.base.timestamp
    then send_on recver (pack_of tag (record a { recver = recver }) m) s
    else some ([], s)

unfoldable pub deliver_net :
    WriteExit → Codec → (ℕ → ActorId) → Tag → Address → Message → Socket → Effects
deliver_net write_exit codec aid_at (Tag.link l) a m s = net_link write_exit aid_at l a m s
deliver_net write_exit codec aid_at (Tag.exit ex) a m s = net_exit aid_at ex a m s
deliver_net write_exit codec aid_at (Tag.spawn spw) a m s = net_spawn codec spw a m s
deliver_net write_exit codec aid_at (Tag.spawn_ret spr) a m s = net_spawn_ret codec aid_at spr a m s
deliver_net write_exit codec aid_at (Tag.from_aid aid) a m s =
    net_message aid_at (Tag.from_aid aid) a m s
deliver_net write_exit codec aid_at (Tag.request req) a m s =
    net_message aid_at (Tag.request req) a m s
deliver_net write_exit codec aid_at (Tag.response res) a m s =
    net_message aid_at (Tag.response res) a m s
deliver_net write_exit codec aid_at (Tag.fwd_link l) a m s =
    net_message aid_at (Tag.fwd_link l) a m s
deliver_net write_exit codec aid_at (Tag.fwd_exit ex) a m s =
    net_message aid_at (Tag.fwd_exit ex) a m s

-- `handle_net_msg`
unfoldable pub handle_net_msg : WriteExit → Codec → (ℕ → ActorId) → Message → Socket → Effects
handle_net_msg write_exit codec aid_at msg s = do
  (tagged, m) ← pop_tag codec msg
  (tag, a) ← tagged
  if s.is_router
      then route_net write_exit codec tag a m s
      else deliver_net write_exit codec aid_at tag a m s
