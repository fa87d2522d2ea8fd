-- ===== src/Mailbox.antt =====
-- libs/actor/src/mailbox.cpp and gce/actor/detail/mailbox.hpp.
-- A node of `recv_que_` has an address, and `recv_itr` is that address. A match queue holds each
-- recv iterator at most once, so an iterator into it (`match_itr`) is the recv iterator it points
-- to. The use of an iterator whose node is gone is undefined behaviour: the operation gives `none`.
-- The scopes of `push`, which take a node back when memory runs out, are not modelled.
pub mod Inbox
pub mod Cells
pub mod Queues
pub mod Invariant
pub mod Supersede
pub mod Steps
pub mod PushRefines
pub mod PopRefines
pub mod Calls
pub mod Refines
pub mod Push
mod Tests
pub mod Pop
use gce.Prelude.{
  ℕ, zero, suc, List, [], ◌∷◌, Option, none, some, ltb, ◌==◌, if◌then◌else◌, length, get_or, set,
  option_or,
}
use mathlib.Core.Option
use gce.OrdMap.{OrdMap, find, erase, insert_or}
use gce.Ids.{ActorId, ServiceId}
use gce.Key.{nat_key}
use gce.Message.{Message, Recv, Request, Response}
-- A node of `recv_que_` has an address, and `recv_itr` is that address. A match queue holds each
-- recv iterator at most once, so an iterator into it (`match_itr`) is the recv iterator it points
-- to. The use of an iterator whose node is gone is undefined behaviour: the operation gives `none`.
-- The scopes of `push`, which take a node back when memory runs out, are not modelled.
use gce.Prelude.{
  ℕ, suc, Bool, true, false, ◌&&◌, List, [], ◌∷◌, ◌++◌, Option, none, some, ltb, ◌==◌,
  if◌then◌else◌, length, get_or, set, is_some, option_or, ◌>>=◌,
}
use mathlib.Core.Option
use gce.OrdMap.{OrdMap, find, place, assign, erase, insert, insert_or}
use gce.Ids.{ActorId, ServiceId, nil_aid, aid_ok, svc_ok}
use gce.Ids.Order.{aid_key, svc_key}
use gce.Key.{nat_key}
use gce.Atom.{exit_type}
use gce.Message.{Message, Recv, Request, Response, Exit, new_response}

-- A node of `recv_que_`.
pub record Cell : Type 0 where
  pub addr : ℕ
  pub src : Recv
  pub msg : Message

-- `class mailbox`; `next` is the address of the next node.
pub record Mailbox : Type 0 where
  pub recv_que : List Cell
  pub cache_match_list : List (List ℕ)
  pub match_queue_list : OrdMap ℕ (List ℕ)
  pub res_msg_list : OrdMap ℕ (Response × Message)
  pub wait_reply_list : OrdMap ActorId (List Request)
  pub exit_list : OrdMap ActorId ℕ
  pub svc_exit_list : OrdMap ServiceId (ActorId × ℕ)
  pub next : ℕ

abbrev pub empty_queues : ℕ → List (List ℕ)
empty_queues zero = []
empty_queues (suc n) = [] ∷ empty_queues n

-- `mailbox(size_t)`
unfoldable pub new_mailbox : ℕ → Mailbox
new_mailbox cache_match_size = record {
  recv_que = [];
  cache_match_list = empty_queues cache_match_size;
  match_queue_list = [];
  res_msg_list = [];
  wait_reply_list = [];
  exit_list = [];
  svc_exit_list = [];
  next = 0;
}

-- `clear`
unfoldable pub clear : Mailbox → Mailbox
clear mb = record {
  recv_que = [];
  cache_match_list = empty_queues (length mb.cache_match_list);
  match_queue_list = [];
  res_msg_list = [];
  wait_reply_list = [];
  exit_list = [];
  svc_exit_list = [];
  next = mb.next;
}

-- `*itr` and `recv_que_.erase(itr)`
unfoldable pub deref : ℕ → List Cell → Option Cell
deref a [] = none
deref a (c ∷ q) = if c.addr == a then some c else deref a q

unfoldable pub erase_cell : ℕ → List Cell → Option (List Cell)
erase_cell a [] = none
erase_cell a (c ∷ q) =
    let rest = Option.map (λ r. c ∷ r) (erase_cell a q) in if c.addr == a then some q else rest

-- `match_que->erase(itr)`
unfoldable pub erase_itr : ℕ → List ℕ → Option (List ℕ)
erase_itr a [] = none
erase_itr a (b ∷ q) =
    let rest = Option.map (λ r. b ∷ r) (erase_itr a q) in if b == a then some q else rest

-- `type < cache_match_list_.size()`
abbrev pub is_cached : ℕ → Mailbox → Bool
is_cached type mb = ltb type (length mb.cache_match_list)

-- What `match_que` points to; a queue that is missing from `match_queue_list_` reads as empty.
unfoldable pub queue_of : ℕ → Mailbox → List ℕ
queue_of type mb =
    if is_cached type mb
    then get_or mb.cache_match_list type []
    else option_or (find type mb.match_queue_list) []

-- A write through `match_que`, which `insert(make_pair(type, dummy2_))` brings about if need be.
unfoldable pub put_queue : ℕ → List ℕ → Mailbox → Mailbox
put_queue type q mb =
    if is_cached type mb
    then record mb { cache_match_list = set mb.cache_match_list type q }
    else record mb { match_queue_list = insert_or type q (λ _. q) mb.match_queue_list }

-- `pop_front`, and the queue's removal from `match_queue_list_` when it was the last.
unfoldable pub pop_queue : ℕ → List ℕ → Mailbox → Mailbox
unfolding put_queue
pop_queue type (a ∷ rest) mb = put_queue type (a ∷ rest) mb
pop_queue type [] mb =
    if is_cached type mb
    then record mb { cache_match_list = set mb.cache_match_list type [] }
    else record mb { match_queue_list = erase type mb.match_queue_list }
