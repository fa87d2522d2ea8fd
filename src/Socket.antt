-- ===== src/Socket.antt =====
-- libs/actor/src/socket.cpp and gce/actor/detail/socket.hpp: the actor of a connection. What it does to
-- others is a list of effects, in order. `none` is a failed BOOST_ASSERT, an exception or undefined
-- behaviour. The network socket, the timers and the heartbeat belong to asio.
pub mod Net
pub mod Endpoint
pub mod Cache
pub mod Losses
pub mod Links
pub mod Frame
pub mod FrameTrip
pub mod Stream
mod Tests
use gce.Prelude.{
  ℕ, ◌-◌, ◌^◌, Bool, true, false, not, ◌&&◌, List, [], ◌∷◌, ◌++◌, Option, none, some, if◌then◌else◌,
  ◌==◌, ◌>>=◌, map,
}
use gce.Key.{nat_key}
use gce.OrdMap.{OrdMap, find, insert, erase, insert_or, assign}
use gce.Ids.{ActorId, nil_aid, aid_ok, ctxid_nil}
use gce.Ids.Order.{aid_key}
use gce.Atom.{atom, exit_type}
use gce.Message.{Message, Tag, Exit, FwdExit, Spawn, SpawnError, new_message, u32_nil}
use gce.CachePool.{
  SocketType, CachePool, register_socket, deregister_socket, socket_router, socket_comm,
  socket_joint,
}
use gce.BasicActor.{
  BasicActor, SendHint, sync, Sent, Outcome, nil_pack, send, update_aid, on_free, WriteExit,
}

-- `enum status`
pub data Status : Type 0 where
  ready on off : Status

-- `class socket`; `has_skt` says that `skt_` is not null, and a remote function is a number.
pub record Socket : Type 0 where
  pub base : BasicActor
  pub stat : Status
  pub has_skt : Bool
  pub conn : Bool
  pub conn_cache : List Message
  pub curr_reconn : ℕ
  pub straight_link_list : OrdMap ActorId (OrdMap ActorId (Unit {0}))
  pub router_link_list : OrdMap ActorId (OrdMap ActorId ActorId)
  pub remote_list : OrdMap ℕ ℕ
  pub is_router : Bool

-- A call of `on_recv`, a message to the network, the posted `spawn_remote_actor`, and the calls of
-- `context::register_socket` and `context::deregister_socket`.
pub data Effect : Type 0 where
  sends : Sent → Effect
  writes : Message → Effect
  spawns : Spawn → ℕ → Effect
  registers : ℕ × SocketType → ActorId → Effect
  deregisters : ℕ × SocketType → ActorId → Effect

abbrev pub Effects : Type 0
Effects = Option (List Effect × Socket)

abbrev pub with_base : Socket → Outcome → Effects
with_base s none = none
with_base s (some (sent, b)) = some (map sends sent, record s { base = b })

-- `socket(cache_pool*)`
unfoldable pub new_socket : BasicActor → Socket
new_socket base = record {
  base = base;
  stat = ready;
  has_skt = false;
  conn = false;
  conn_cache = [];
  curr_reconn = 0;
  straight_link_list = [];
  router_link_list = [];
  remote_list = [];
  is_router = false;
}

abbrev is_ready : Status → Bool
is_ready ready = true
is_ready on = false
is_ready off = false

-- `init`
unfoldable pub init : Socket → Option Socket
init s =
    if is_ready s.stat
    then some (record s { curr_reconn = u32_nil; base = update_aid s.base })
    else none

-- `start`, without the coroutine that it spawns.
unfoldable pub start : OrdMap ℕ ℕ → Bool → Socket → Socket
start remote_list is_router s = record s {
  conn = true;
  remote_list = remote_list;
  is_router = is_router;
}

-- `close`, without what it does to the heartbeat and to asio.
unfoldable pub close : Socket → Socket
close s = record s { stat = off }

-- `on_free`: `router_link_list_` and `skt_` are left as they are.
unfoldable pub free_socket : Socket → Socket
free_socket s = record s {
  base = on_free s.base;
  stat = ready;
  conn = false;
  conn_cache = [];
  curr_reconn = 0;
  straight_link_list = [];
  remote_list = [];
  is_router = false;
}

unfoldable pub add_straight_link : ActorId → ActorId → Socket → Socket
add_straight_link src des s =
    if aid_ok des
    then record s { straight_link_list = insert_or src [] (insert des tt) s.straight_link_list }
    else s

unfoldable pub remove_straight_link : ActorId → ActorId → Socket → Socket
remove_straight_link src des s =
    if aid_ok des
    then elim (find src s.straight_link_list) [
      | none ↦ s
      | some links ↦ record s {
        straight_link_list = assign src (erase des links) s.straight_link_list;
      }
    ]
    else s

unfoldable pub add_router_link : ActorId → ActorId → ActorId → Socket → Socket
add_router_link src des skt s =
    if aid_ok des
    then record s { router_link_list = insert_or src [] (insert des skt) s.router_link_list }
    else s

-- `remove_router_link` past its test.
unfoldable pub drop_router_link : ActorId → ActorId → Socket → ActorId × Socket
drop_router_link src des s = elim (find src s.router_link_list) [
  | none ↦ (nil_aid, s)
  | some links ↦ elim (find des links) [
    | none ↦ (nil_aid, s)
    | some skt ↦
        (skt, record s { router_link_list = assign src (erase des links) s.router_link_list })
  ]
]

unfoldable pub remove_router_link : ActorId → ActorId → Socket → ActorId × Socket
unfolding drop_router_link
remove_router_link src des s = if aid_ok des then drop_router_link src des s else (nil_aid, s)

-- `send(message const&)`; the messages that waited go first.
unfoldable pub send_message : Message → Socket → Effects
send_message m s =
    if s.conn
    then (if s.has_skt
        then some (map writes (s.conn_cache ++ (m ∷ [])), record s { conn_cache = [] })
        else none)
    else some ([], record s { conn_cache = s.conn_cache ++ (m ∷ []) })

-- `send_msg_hb`: `atom("gce_msg_hb")`
unfoldable pub msg_hb : ℕ
msg_hb = atom (103 ∷ 99 ∷ 101 ∷ 95 ∷ 109 ∷ 115 ∷ 103 ∷ 95 ∷ 104 ∷ 98 ∷ [])

unfoldable pub send_msg_hb : Socket → Effects
send_msg_hb s = send_message (new_message msg_hb) s

-- `exit_neterr`: `atom("gce_ex_neterr")`
unfoldable pub exit_neterr : ℕ
exit_neterr = atom (103 ∷ 99 ∷ 101 ∷ 95 ∷ 101 ∷ 120 ∷ 95 ∷ 110 ∷ 101 ∷ 116 ∷ 101 ∷ 114 ∷ 114 ∷ [])

abbrev pub net_error : List ℕ
net_error = 110 ∷ 101 ∷ 116 ∷ 32 ∷ 101 ∷ 114 ∷ 114 ∷ 111 ∷ 114 ∷ []

-- The first loop of `on_neterr`, over the links of one local actor.
unfoldable pub lose_links : Message → ActorId → OrdMap ActorId (Unit {0}) → BasicActor → Outcome
lose_links m src [] b = some ([], b)
lose_links m src ((des, _) ∷ links) b = do
  (sent, c) ←
      send src
        (record nil_pack {
          tag = Tag.exit (record { code = exit_neterr; aid = des });
          recver = src;
          skt = src;
          msg = m;
        })
        SendHint.sync b
  (more, d) ← lose_links m src links c
  some (sent ++ more, d)

unfoldable pub lose_straight :
    Message → OrdMap ActorId (OrdMap ActorId (Unit {0})) → BasicActor → Outcome
lose_straight m [] b = some ([], b)
lose_straight m ((src, links) ∷ rest) b = do
  (sent, c) ← lose_links m src links b
  (more, d) ← lose_straight m rest c
  some (sent ++ more, d)

-- The second loop, over the links that are routed.
unfoldable pub lose_routes :
    Message → ActorId → ActorId → OrdMap ActorId ActorId → BasicActor → Outcome
lose_routes m self_aid src [] b = some ([], b)
lose_routes m self_aid src ((des, skt) ∷ links) b = do
  (sent, c) ←
      send skt
        (record nil_pack {
          tag = Tag.fwd_exit (record { code = exit_neterr; aid = des; skt = self_aid });
          recver = src;
          skt = skt;
          msg = m;
        })
        SendHint.sync b
  (more, d) ← lose_routes m self_aid src links c
  some (sent ++ more, d)

unfoldable pub lose_routed :
    Message → ActorId → OrdMap ActorId (OrdMap ActorId ActorId) → BasicActor → Outcome
lose_routed m self_aid [] b = some ([], b)
lose_routed m self_aid ((src, links) ∷ rest) b = do
  (sent, c) ← lose_routes m self_aid src links b
  (more, d) ← lose_routed m self_aid rest c
  some (sent ++ more, d)

-- `on_neterr`; `errmsg` is the text of the error code, or `net_error` without one.
unfoldable pub on_neterr : WriteExit → ActorId → List ℕ → Socket → Effects
on_neterr write_exit self_aid errmsg s = do
  let m = write_exit exit_neterr errmsg (new_message exit_type)
  (straight, b) ← lose_straight m s.straight_link_list s.base
  (routed, c) ← lose_routed m self_aid s.router_link_list b
  some (
    map sends (straight ++ routed),
    record s {
      base = c;
      conn = false;
      conn_cache = [];
      straight_link_list = [];
      router_link_list = [];
    },
  )

abbrev pub type_number : SocketType → ℕ
type_number socket_comm = 0
type_number socket_router = 1
type_number socket_joint = 2

abbrev pub pair_eq : ℕ × SocketType → ℕ × SocketType → Bool
pair_eq (a, t) (b, u) = a == b && type_number t == type_number u

-- `sync_ctxid`
unfoldable pub sync_ctxid :
    ℕ × SocketType → ℕ × SocketType → Socket → (ℕ × SocketType) × List Effect × Socket
sync_ctxid new_pr curr_pr s =
    let skt = s.base.aid in
    if pair_eq new_pr curr_pr then (new_pr, [], s) else (
      new_pr,
      deregisters curr_pr skt ∷ registers new_pr skt ∷ [],
      record s {
        base = record (s.base) {
          user = register_socket new_pr skt (deregister_socket curr_pr skt s.base.user);
        };
      },
    )
