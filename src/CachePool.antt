-- ===== src/CachePool.antt =====
-- libs/actor/src/cache_pool.cpp and gce/actor/detail/cache_pool.hpp: the services and sockets that a
-- pool knows. A socket or an acceptor is its address. An iterator is the key that it points to, and
-- `++` at `end()` is undefined behaviour: the operation gives `none`. The pools of actors, sockets
-- and acceptors are free lists (gce/detail/freelist.hpp).
pub mod Ring
pub mod Sockets
pub mod Valid
pub mod Select
pub mod Runs
pub mod Services
mod Tests
use gce.Prelude.{
  ℕ, Bool, true, false, List, [], ◌∷◌, Option, none, some, if◌then◌else◌, ◌==◌, length, ◌>>=◌,
  option_or,
}
use gce.OrdMap.{OrdMap, find, insert, erase, assign, insert_or}
use gce.Key.{nat_key}
use gce.Ids.{ActorId, nil_aid, aid_ok, aid_eq, ctxid_nil}
use gce.Ids.Order.{aid_key}
use gce.CachePool.Ring.{begin, advance, keys}

-- `enum socket_type`
pub data SocketType : Type 0 where
  socket_comm socket_router socket_joint : SocketType

-- `struct socket_list`
pub record SocketList : Type 0 where
  pub skt_list : OrdMap ActorId (Unit {0})
  pub curr_skt : Option ActorId

abbrev pub empty_list : SocketList
empty_list = record { skt_list = []; curr_skt = none }

-- A `conn_list_t` with the iterator into it.
pub record ConnList : Type 0 where
  pub list : OrdMap ℕ SocketList
  pub curr : Option ℕ

-- `class cache_pool`
pub record CachePool : Type 0 where
  pub conns : ConnList
  pub joints : ConnList
  pub routers : ConnList
  pub service_list : OrdMap ℕ ActorId
  pub socket_list : OrdMap ℕ (Unit {0})
  pub acceptor_list : OrdMap ℕ (Unit {0})
  pub stopped : Bool

abbrev pub no_conns : ConnList
no_conns = record { list = []; curr = none }

-- `cache_pool(context&, size_t, bool)`
unfoldable pub new_pool : CachePool
new_pool = record {
  conns = no_conns;
  joints = no_conns;
  routers = no_conns;
  service_list = [];
  socket_list = [];
  acceptor_list = [];
  stopped = false;
}

unfoldable pub register_service : ℕ → ActorId → CachePool → CachePool
register_service name svc p = record p { service_list = insert name svc p.service_list }

unfoldable pub find_service : ℕ → CachePool → ActorId
find_service name p = option_or (find name p.service_list) nil_aid

unfoldable pub deregister_service : ℕ → ActorId → CachePool → CachePool
deregister_service name svc p = elim (find name p.service_list) [
  | none ↦ p
  | some known ↦
      if aid_eq known svc then record p { service_list = erase name p.service_list } else p
]

-- `skt_list.insert(skt); if (skt_list.size() == 1) curr_skt_ = skt_list.begin();`
unfoldable pub add_skt : ActorId → SocketList → SocketList
add_skt skt l =
    let skts = insert skt tt l.skt_list in
    record { skt_list = skts; curr_skt = if length skts == 1 then begin skts else l.curr_skt }

-- The body of `register_socket` for one of the three lists.
unfoldable pub register_in : ℕ → ActorId → ConnList → ConnList
unfolding add_skt
register_in ctxid skt c =
    let list = insert_or ctxid empty_list (add_skt skt) c.list in
    record { list = list; curr = if length list == 1 then begin list else c.curr }

-- The body of `deregister_socket` for one of the three lists.
unfoldable pub deregister_in : ℕ → ActorId → ConnList → ConnList
deregister_in ctxid skt c = elim (find ctxid c.list) [
  | none ↦ c
  | some l ↦
      let skts = erase skt l.skt_list in
      record c { list = assign ctxid (record { skt_list = skts; curr_skt = begin skts }) c.list }
]

unfoldable pub register_socket : ℕ × SocketType → ActorId → CachePool → CachePool
register_socket (ctxid, socket_router) skt p = record p {
  routers = register_in ctxid skt p.routers;
}
register_socket (ctxid, socket_joint) skt p = record p { joints = register_in ctxid skt p.joints }
register_socket (ctxid, socket_comm) skt p = record p { conns = register_in ctxid skt p.conns }

unfoldable pub deregister_socket : ℕ × SocketType → ActorId → CachePool → CachePool
deregister_socket (ctxid, socket_router) skt p = record p {
  routers = deregister_in ctxid skt p.routers;
}
deregister_socket (ctxid, socket_joint) skt p = record p {
  joints = deregister_in ctxid skt p.joints;
}
deregister_socket (ctxid, socket_comm) skt p = record p { conns = deregister_in ctxid skt p.conns }

unfoldable pub add_socket : ℕ → CachePool → CachePool
add_socket s p = record p { socket_list = insert s tt p.socket_list }

unfoldable pub add_acceptor : ℕ → CachePool → CachePool
add_acceptor a p = record p { acceptor_list = insert a tt p.acceptor_list }

unfoldable pub remove_socket : ℕ → CachePool → CachePool
remove_socket s p = record p { socket_list = erase s p.socket_list }

unfoldable pub remove_acceptor : ℕ → CachePool → CachePool
remove_acceptor a p = record p { acceptor_list = erase a p.acceptor_list }

-- `stop`, with the sockets and the acceptors whose `stop` it calls, in order.
unfoldable pub stop : CachePool → (List ℕ × List ℕ) × CachePool
stop p = (
  (keys p.socket_list, keys p.acceptor_list),
  record p { stopped = true; socket_list = []; acceptor_list = [] },
)
