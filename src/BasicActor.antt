-- ===== src/BasicActor.antt =====
-- gce/actor/basic_actor.hpp and libs/actor/src/basic_actor.cpp: what every actor does to send. A call of
-- `on_recv` of another actor is a `Sent`, in order. `none` is a failed BOOST_ASSERT or undefined
-- behaviour. `write_exit` stands for the writing of an exit code and a text to a message by amsg.
pub mod Sends
pub mod Receive
pub mod Filing
pub mod Requests
pub mod Links
mod Tests
use gce.Prelude.{
  ℕ, suc, ◌+◌, ◌-◌, ◌%◌, ◌^◌, Bool, true, false, ◌&&◌, ◌||◌, List, [], ◌∷◌, Option, none, some,
  if◌then◌else◌, ◌==◌, ◌>>=◌,
}
use gce.OrdMap.{OrdMap, insert, erase}
use gce.Ids.{ActorId, ServiceId, nil_aid, nil_svcid, new_aid, aid_ok, aid_eq, ctxid_nil, sid_nil}
use gce.Ids.Order.{aid_key}
use gce.Atom.{atom}
use gce.Message.{
  Message, Request, Response, Tag, Pack, Link, LinkType, new_message, nil_message, request_ok,
  nil_request, new_response, Spawn, SpawnType, Exit,
}
use gce.Mailbox.{Mailbox, new_mailbox, clear}
use gce.Mailbox.Pop.{pop_request}
use gce.CachePool.{CachePool, find_service}
use gce.CachePool.Sockets.{select_socket}

-- `enum send_hint`
pub data SendHint : Type 0 where
  sync async : SendHint

-- `class basic_actor`; `self` is its address.
pub record BasicActor : Type 0 where
  pub user : CachePool
  pub mb : Mailbox
  pub ctxid : ℕ
  pub timestamp : ℕ
  pub cache_queue_index : ℕ
  pub self : ℕ
  pub aid : ActorId
  pub chain : Bool
  pub req_id : ℕ
  pub link_list : OrdMap ActorId ActorId
  pub monitor_list : OrdMap ActorId (Unit {0})

-- The pools, and the attributes of the context.
unfoldable pub new_actor : CachePool → ℕ → ℕ → ℕ → ℕ → ℕ → BasicActor
new_actor user max_cache_match_size ctxid timestamp cache_queue_index self = record {
  user = user;
  mb = new_mailbox max_cache_match_size;
  ctxid = ctxid;
  timestamp = timestamp;
  cache_queue_index = cache_queue_index;
  self = self;
  aid = new_aid ctxid timestamp self 0;
  chain = true;
  req_id = 0;
  link_list = [];
  monitor_list = [];
}

-- A call of `on_recv`.
pub record Sent : Type 0 where
  pub to : ActorId
  pub pk : Pack
  pub hint : SendHint

abbrev pub size_nil : ℕ
size_nil = 2 ^ 64 - 1

-- `pack()`
abbrev pub nil_pack : Pack
nil_pack = record {
  tag = Tag.from_aid nil_aid;
  recver = nil_aid;
  skt = nil_aid;
  svc = nil_svcid;
  is_err_ret = false;
  msg = nil_message;
  cache_queue_index = size_nil;
  cache_index = 2 ^ 64 - 1;
}

unfoldable pub check_local : ActorId → ℕ → Bool
check_local id ctxid = id.ctxid == ctxid

unfoldable pub check_local_valid : ActorId → ℕ → Bool
check_local_valid id timestamp = id.timestamp == timestamp

-- `get_actor_ptr`
unfoldable pub get_actor_ptr : ActorId → ℕ → ℕ → Option ℕ
get_actor_ptr id ctxid timestamp =
    if ctxid == id.ctxid && (timestamp == id.timestamp && aid_ok id) then some id.uintptr else none

-- `check`; `aid_at` is the `aid_` of the actor at an address.
unfoldable pub check : (ℕ → ActorId) → ActorId → ℕ → ℕ → Bool
check aid_at id ctxid timestamp =
    (ctxid == id.ctxid && timestamp == id.timestamp) && (aid_ok id && aid_eq (aid_at id.uintptr) id)

unfoldable pub update_aid : BasicActor → BasicActor
update_aid b = record b { aid = new_aid b.ctxid b.aid.timestamp b.self ((b.aid.sid + 1) % 2 ^ 32) }

unfoldable pub new_request : BasicActor → ℕ × BasicActor
new_request b = let id = (b.req_id + 1) % 2 ^ 32 in (id, record b { req_id = id })

unfoldable pub on_free : BasicActor → BasicActor
on_free b = record b { mb = clear b.mb; link_list = []; monitor_list = [] }

unfoldable pub add_link : ActorId → ActorId → BasicActor → BasicActor
add_link target skt b = record b { link_list = insert target skt b.link_list }

unfoldable pub remove_link : ActorId → BasicActor → BasicActor
remove_link aid b = record b {
  link_list = erase aid b.link_list;
  monitor_list = erase aid b.monitor_list;
}

abbrev pub Outcome : Type 0
Outcome = Option (List Sent × BasicActor)

-- `if (!chain_) hint = async`
abbrev pub hint_of : BasicActor → SendHint → SendHint
hint_of b hint = if b.chain then hint else SendHint.async

-- `send`
unfoldable pub send : ActorId → Pack → SendHint → BasicActor → Outcome
send recver pk hint b = do
  ptr ← get_actor_ptr recver b.ctxid b.timestamp
  some (
    record { to = recver; pk = record pk { cache_queue_index = b.cache_queue_index }; hint = hint }
        ∷ [],
    b,
  )

-- The socket that `select_socket` gives.
unfoldable pub socket_for : ℕ → BasicActor → Option (ActorId × BasicActor)
socket_for ctxid b = do
  (skt, target, user) ← select_socket ctxid b.user
  some (skt, record b { user = user })

unfoldable pub filter_aid : ActorId → BasicActor → Option (ActorId × BasicActor)
filter_aid src b =
    if check_local src b.ctxid
    then some (if check_local_valid src b.timestamp then src else nil_aid, b)
    else socket_for src.ctxid b

unfoldable pub is_local_svc : ServiceId → BasicActor → Bool
is_local_svc src b = src.ctxid == ctxid_nil || src.ctxid == b.ctxid

unfoldable pub filter_svcid : ServiceId → BasicActor → Option (ActorId × BasicActor)
filter_svcid src b =
    if is_local_svc src b then some (find_service src.name b.user, b) else socket_for src.ctxid b

-- The part that the `pri_` functions share past `filter_aid` and `filter_svcid`.
unfoldable pub send_to : Tag → ActorId → ActorId → Message → SendHint → BasicActor → Outcome
send_to tag recver target m hint b =
    send target (record nil_pack { tag = tag; recver = recver; skt = target; msg = m })
      (hint_of b hint) b

unfoldable pub send_to_svc : Tag → ServiceId → ActorId → Message → SendHint → BasicActor → Outcome
send_to_svc tag recver target m hint b =
    send target
      (record nil_pack {
        tag = tag;
        recver = if is_local_svc recver b then target else nil_aid;
        svc = recver;
        skt = target;
        msg = m;
      })
      (hint_of b hint) b

-- Both overloads of `send_already_exited`, by the tag of the pack.
abbrev pub already_exited : List ℕ
already_exited = 97 ∷ 108 ∷ 114 ∷ 101 ∷ 97 ∷ 100 ∷ 121 ∷ 32 ∷ 101 ∷ 120 ∷ 105 ∷ 116 ∷ 101 ∷ 100 ∷ []

-- `exit_already`: `atom("gce_ex_already")`
unfoldable pub exit_already : ℕ
exit_already =
    atom (103 ∷ 99 ∷ 101 ∷ 95 ∷ 101 ∷ 120 ∷ 95 ∷ 97 ∷ 108 ∷ 114 ∷ 101 ∷ 97 ∷ 100 ∷ 121 ∷ [])

abbrev pub WriteExit : Type 0
WriteExit = ℕ → List ℕ → Message → Message
