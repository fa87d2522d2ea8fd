-- ===== src/CachePool/Sockets.antt =====
-- The selection of a socket, in libs/actor/src/cache_pool.cpp. Each function gives the socket, what
-- it writes to `*target` (`none` if nothing), and the pool.
use gce.Prelude.{ℕ, [], ◌∷◌, Option, none, some, if◌then◌else◌, ◌==◌, ◌>>=◌}
use gce.OrdMap.{OrdMap, find, assign}
use gce.Key.{nat_key}
use gce.Ids.{ActorId, nil_aid, aid_ok, ctxid_nil}
use gce.Ids.Order.{aid_key}
use gce.CachePool.Ring.{advance, at}
use gce.CachePool.{SocketList, ConnList, CachePool}

-- The socket under the iterator, and the iterator's turn. `++` at the end of a list that is not
-- empty is a fault, and so is the use of an iterator to an element that is gone.
unfoldable pub turn_of :
    OrdMap ActorId (Unit {0}) → Option ActorId → Option (ActorId × Option ActorId)
turn_of [] itr = some (nil_aid, itr)
turn_of (x ∷ m) none = none
turn_of (x ∷ m) (some itr) = do skt ← at itr (x ∷ m); some (skt, advance itr (x ∷ m))

unfoldable pub take_turn : SocketList → Option (ActorId × SocketList)
take_turn l = do (skt, itr) ← turn_of l.skt_list l.curr_skt; some (skt, record l { curr_skt = itr })

abbrev pub Selected : Type 0 → Type 0
Selected S = Option (ActorId × Option ℕ × S)

-- The list under the iterator takes its turn, and so does the iterator.
unfoldable pub next_from : OrdMap ℕ SocketList → Option ℕ → Selected ConnList
next_from [] curr = some (nil_aid, none, record { list = []; curr = curr })
next_from (x ∷ m) none = none
next_from (x ∷ m) (some ctxid) = elim (find ctxid (x ∷ m)) [
  | none ↦ none
  | some l ↦ do
    (skt, l') ← take_turn l
    some (skt, some ctxid, record { list = assign ctxid l' (x ∷ m); curr = advance ctxid (x ∷ m) })
]

unfoldable pub next_list : ConnList → Selected ConnList
next_list c = next_from c.list c.curr

-- The list of one context takes its turn.
unfoldable pub list_of : ℕ → ConnList → Selected ConnList
list_of ctxid c = elim (find ctxid c.list) [
  | none ↦ some (nil_aid, none, c)
  | some l ↦ do
    (skt, l') ← take_turn l
    some (skt, none, record c { list = assign ctxid l' c.list })
]

-- The body of `select_straight_socket` and `select_joint_socket`.
unfoldable pub select_in : ℕ → ConnList → Selected ConnList
select_in ctxid c = if ctxid == ctxid_nil then next_list c else list_of ctxid c

unfoldable pub select_straight_socket : ℕ → CachePool → Selected CachePool
select_straight_socket ctxid p = do
  (skt, target, c) ← select_in ctxid p.conns
  some (skt, target, record p { conns = c })

unfoldable pub select_joint_socket : ℕ → CachePool → Selected CachePool
select_joint_socket ctxid p = do
  (skt, target, c) ← select_in ctxid p.joints
  some (skt, target, record p { joints = c })

unfoldable pub select_router : CachePool → Selected CachePool
select_router p = do
  (skt, target, c) ← next_list p.routers
  some (skt, target, record p { routers = c })

-- What `*target` holds after two calls that may write it.
abbrev pub or_kept : Option ℕ → Option ℕ → Option ℕ
or_kept (some t) old = some t
or_kept none old = old

unfoldable pub select_socket : ℕ → CachePool → Selected CachePool
select_socket ctxid p = do
  (skt, target, q) ← select_straight_socket ctxid p
  if aid_ok skt
      then some (skt, target, q)
      else (do (router, target', r) ← select_router q; some (router, or_kept target' target, r))
